-- ===== src/Examples/Queue.antt =====
-- The scan queue on requests for three directories.
use spacedisplay.Common.{◌≡◌, refl, inl, inr, true, false, List, [], ◌∷◌, codes, str_eq, arith}
use spacedisplay.FilePath.{FilePath, compare_to, same_parts, str_crc16}
use spacedisplay.FilePath.Validity.{IsValid, crcs_of}
use spacedisplay.Scanner.Queue.{ScanRequest, request, add_to_queue, add_children_to_queue}
use spacedisplay.Scanner.Coverage.{Covered, Valid, add_to_queue-Covered}
use spacedisplay.Scanner.Children.{add_children_to_queue-Covered}
use spacedisplay.Scanner.Distinct.{Distinct, add_to_queue-Distinct, add_to_queue-drops}
use spacedisplay.Examples.Paths.{
  host, path_of, root_path, home_path, root_path-IsValid, home_path-IsValid,
}

abbrev usr_path : FilePath
usr_path = path_of (codes "/" ∷ codes "usr/" ∷ [])

usr_path-IsValid : IsValid host usr_path
usr_path-IsValid = record { names = (refl, inl (codes "usr", omega arith, refl)); crcs = refl }

abbrev queue : List ScanRequest
queue = request home_path true ∷ request usr_path true ∷ []

queue-Valid : Valid host queue
queue-Valid = (home_path-IsValid, (usr_path-IsValid, tt))

-- A request for the root replaces both.
add_root : add_to_queue root_path true false queue ≡ request root_path true ∷ []
unfolding add_to_queue compare_to same_parts str_eq crcs_of str_crc16
add_root = refl

add_to_queue-Covered_example :
    Covered (add_to_queue root_path true false queue) (codes "/" ∷ codes "home/" ∷ [])
add_to_queue-Covered_example =
    add_to_queue-Covered host root_path root_path-IsValid false queue
      (codes "/" ∷ codes "home/" ∷ []) queue-Valid (inl (inl (inl refl)))

add_children_to_queue-Covered_example :
    Covered
      (add_children_to_queue (home_path ∷ usr_path ∷ []) true false [])
      (codes "/" ∷ codes "usr/" ∷ codes "lib/" ∷ [])
add_children_to_queue-Covered_example =
    add_children_to_queue-Covered host false (codes "/" ∷ []) (home_path ∷ usr_path ∷ []) []
      (codes "/" ∷ codes "usr/" ∷ codes "lib/" ∷ []) (λ e. cc)
      ((home_path-IsValid, (codes "home/", refl)), ((usr_path-IsValid, (codes "usr/", refl)), tt))
      tt (inr (inr (inl (codes "lib/" ∷ [], refl))))

add_to_queue-Distinct_example : Distinct (add_to_queue home_path false true queue)
add_to_queue-Distinct_example =
    add_to_queue-Distinct host home_path home_path-IsValid false true queue queue-Valid
      (((λ e. ground arith), tt), (tt, tt))

-- The event that `/` has changed leaves `/home/` without its scan.
add_to_queue-drops_example :
    ¬ Covered (add_to_queue root_path false true queue) (codes "/" ∷ codes "home/" ∷ [])
add_to_queue-drops_example =
    add_to_queue-drops host root_path root_path-IsValid true queue (codes "/" ∷ codes "home/" ∷ [])
      queue-Valid ((codes "home/", [], refl), ((codes "usr/", [], refl), tt)) (λ e. cc)
