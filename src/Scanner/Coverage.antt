-- ===== src/Scanner/Coverage.antt =====
-- Which directories the queued requests will scan, and that adding a recursive request loses none.
use mathlib.Core.List.{append_assoc, append-nil}
use spacedisplay.Common.{
  ◌≡◌, refl, sym, ◌⊎◌, inl, inr, Bool, true, false, List, [], ◌∷◌, ◌++◌, Str, All, All-append,
}
use spacedisplay.FilePath.{
  Host, FilePath, CompareResult, parent, child, different, equal, compare_to,
}
use spacedisplay.FilePath.Validity.{IsValid}
use spacedisplay.FilePath.Compare.{Related, compare_to-Related}
use spacedisplay.Scanner.Queue.{ScanRequest, request, erase_covered, push_request, add_to_queue}

-- One list of parts begins with another.
abbrev pub Extends : List Str → List Str → Type 0
Extends xs ys = (zs : List Str) × (ys ≡ xs ++ zs)

-- A request scans its own directory and, when it is recursive, every directory below.
abbrev pub Scans : ScanRequest → List Str → Type 0
Scans r d = (d ≡ r.path.parts) ⊎ ((r.recursive ≡ true) × Extends r.path.parts d)

abbrev pub Covered : List ScanRequest → List Str → Type 0
Covered [] d = ⊥
Covered (r ∷ q) d = Scans r d ⊎ Covered q d

abbrev pub Valid : Host → List ScanRequest → Type 0
Valid h = All (λ r. IsValid h r.path)

pub Extends-trans :
    (xs : List Str) {ys zs : List Str} → Extends xs ys → Extends ys zs → Extends xs zs
Extends-trans xs (a, e) (b, f) = (a ++ b, rw (f, e) (append_assoc xs a b))

Covered-append_left : (q s : List ScanRequest) (d : List Str) → Covered q d → Covered (q ++ s) d
Covered-append_left (r ∷ q) s d (inl x) = inl x
Covered-append_left (r ∷ q) s d (inr x) = inr (Covered-append_left q s d x)
Covered-append_left [] s d x = absurd x

Covered-append_right : (q s : List ScanRequest) (d : List Str) → Covered s d → Covered (q ++ s) d
Covered-append_right [] s d x = x
Covered-append_right (r ∷ q) s d x = inr (Covered-append_right q s d x)

pub Covered-push :
    (r : ScanRequest) (b : Bool) (q : List ScanRequest) (d : List Str)
    → Covered q d ⊎ Scans r d
    → Covered (push_request r b q) d
unfolding push_request
Covered-push r true q d (inl c) = Covered-append_left q (r ∷ []) d c
Covered-push r true q d (inr s) = Covered-append_right q (r ∷ []) d (inl s)
Covered-push r false q d (inl c) = inr c
Covered-push r false q d (inr s) = inl s

⊎-map_left : {A B C : Type 0} → (A → B) → A ⊎ C → B ⊎ C
⊎-map_left f (inl a) = inl (f a)
⊎-map_left f (inr c) = inr c

module _ (h : Host) where
  module _ (p : FilePath) (vp : IsValid h p) where
    -- What a request scans inside this path, a recursive request for this path scans.
    absorbed :
        (r : ScanRequest) (d : List Str)
        → Extends p.parts r.path.parts
        → Scans r d
        → Scans (request p true) d
    absorbed r d e (inl s) = inr (refl, rw s e)
    absorbed r d e (inr (_, s)) = inr (refl, Extends-trans p.parts e s)

    erase_step :
        (k : CompareResult) (r : ScanRequest) (q kept : List ScanRequest) (d : List Str)
        → Related k p.parts r.path.parts
        → (Covered q d → Covered kept d ⊎ Scans (request p true) d)
        → Covered (r ∷ q) d
        → Covered (elim k [ different ↦ r ∷ kept | child ↦ r ∷ kept | parent ↦ kept | equal ↦ q ]) d
          ⊎ Scans (request p true) d
    erase_step parent r q kept d (z, zs, e) ih (inl s) = inr (absorbed r d (z ∷ zs, e) s)
    erase_step equal r q kept d e ih (inl s) =
        inr (absorbed r d ([], rw e (sym (append-nil r.path.parts))) s)
    erase_step different r q kept d e ih (inl s) = inl (inl s)
    erase_step child r q kept d e ih (inl s) = inl (inl s)
    erase_step parent r q kept d e ih (inr c) = ih c
    erase_step equal r q kept d e ih (inr c) = inl c
    erase_step different r q kept d e ih (inr c) = ⊎-map_left inr (ih c)
    erase_step child r q kept d e ih (inr c) = ⊎-map_left inr (ih c)

    erase_covered-Covered :
        (q : List ScanRequest) (d : List Str)
        → Valid h q
        → Covered q d
        → Covered (erase_covered p q) d ⊎ Scans (request p true) d
    unfolding erase_covered
    erase_covered-Covered [] d v c = absurd c
    erase_covered-Covered (r ∷ q) d v c =
        erase_step (compare_to p r.path) r q (erase_covered p q) d
          (compare_to-Related h p r.path vp v.0) (erase_covered-Covered q d v.1) c

    -- A recursive request scans all that the queue scanned before, and every directory of its
    -- own; the requests that it removes are not needed.
    pub add_to_queue-Covered :
        (to_back : Bool) (q : List ScanRequest) (d : List Str)
        → Valid h q
        → Covered q d ⊎ Extends p.parts d
        → Covered (add_to_queue p true to_back q) d
    unfolding add_to_queue
    add_to_queue-Covered b q d v (inl c) =
        Covered-push (request p true) b (erase_covered p q) d (erase_covered-Covered q d v c)
    add_to_queue-Covered b q d v (inr e) =
        Covered-push (request p true) b (erase_covered p q) d (inr (inr (refl, e)))

    erase_covered-Valid : (q : List ScanRequest) → Valid h q → Valid h (erase_covered p q)
    unfolding erase_covered
    erase_covered-Valid [] v = tt
    erase_covered-Valid (r ∷ q) v = go (compare_to p r.path) (erase_covered-Valid q v.1)
      where
        go :
            (k : CompareResult)
            → Valid h (erase_covered p q)
            → Valid h (elim k [
              | different ↦ r ∷ erase_covered p q
              | child ↦ r ∷ erase_covered p q
              | parent ↦ erase_covered p q
              | equal ↦ q
            ])
        go different w = (v.0, w)
        go child w = (v.0, w)
        go parent w = w
        go equal w = v.1

    push_request-Valid :
        (rec b : Bool) (q : List ScanRequest)
        → Valid h q
        → Valid h (push_request (request p rec) b q)
    unfolding push_request
    push_request-Valid rec true q v = All-append _ q (request p rec ∷ []) v (vp, tt)
    push_request-Valid rec false q v = (vp, v)

    pub add_to_queue-Valid :
        (rec b : Bool) (q : List ScanRequest) → Valid h q → Valid h (add_to_queue p rec b q)
    unfolding add_to_queue
    add_to_queue-Valid rec b q v =
        push_request-Valid rec b (erase_covered p q) (erase_covered-Valid q v)
