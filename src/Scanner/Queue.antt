-- ===== src/Scanner/Queue.antt =====
-- `scanQueue` of `SpaceScanner`, and the two methods that add to it.
use spacedisplay.Common.{Bool, List, [], ◌∷◌, if◌then◌else◌, push_back}
use spacedisplay.FilePath.{FilePath, parent, child, different, equal, compare_to, go_up}

pub record ScanRequest : Type 0 where
  pub path : FilePath
  pub recursive : Bool

-- The loop of `addToQueue`: requests for paths inside this one are erased, and the loop ends
-- behind the first request for this path, which is erased too.
unfoldable pub erase_covered : FilePath → List ScanRequest → List ScanRequest
erase_covered p [] = []
erase_covered p (r ∷ q) =
    let rest = erase_covered p q in
    elim (compare_to p r.path) [
      | different ↦ r ∷ rest
      | child ↦ r ∷ rest
      | parent ↦ rest
      | equal ↦ q
    ]

abbrev pub request : FilePath → Bool → ScanRequest
request p recursive_scan = record { path = p; recursive = recursive_scan }

unfoldable pub push_request : ScanRequest → Bool → List ScanRequest → List ScanRequest
push_request r to_back q = if to_back then push_back q r else r ∷ q

unfoldable pub add_to_queue : FilePath → Bool → Bool → List ScanRequest → List ScanRequest
unfolding erase_covered push_request
add_to_queue p recursive_scan to_back q =
    push_request (request p recursive_scan) to_back (erase_covered p q)

-- How the loop of `addChildrenToQueue` ends: by its `return`, by its `break`, or behind the last
-- request.
pub data Verdict : Type 0 where
  covered separate safe : Verdict

unfoldable pub batch_verdict : FilePath → List ScanRequest → Verdict
batch_verdict p [] = safe
batch_verdict p (r ∷ q) =
    let rest = batch_verdict p q in
    elim (compare_to p r.path) [
      | different ↦ rest
      | child ↦ if r.recursive then covered else separate
      | parent ↦ separate
      | equal ↦ separate
    ]

unfoldable pub push_all : List FilePath → Bool → Bool → List ScanRequest → List ScanRequest
unfolding push_request
push_all [] recursive_scan to_back q = q
push_all (p ∷ ps) recursive_scan to_back q =
    push_all ps recursive_scan to_back (push_request (request p recursive_scan) to_back q)

unfoldable pub add_all : List FilePath → Bool → Bool → List ScanRequest → List ScanRequest
unfolding add_to_queue
add_all [] recursive_scan to_back q = q
add_all (p ∷ ps) recursive_scan to_back q =
    add_all ps recursive_scan to_back (add_to_queue p recursive_scan to_back q)

-- The source reads `paths.front()`, so its callers pass no empty vector.
unfoldable pub add_children_to_queue :
    List FilePath → Bool → Bool → List ScanRequest → List ScanRequest
unfolding batch_verdict push_all add_all
add_children_to_queue [] recursive_scan to_back q = q
add_children_to_queue (p ∷ ps) recursive_scan to_back q = elim (batch_verdict (go_up p).0 q) [
  | covered ↦ q
  | separate ↦ add_all (p ∷ ps) recursive_scan to_back q
  | safe ↦ push_all (p ∷ ps) recursive_scan to_back q
]
