-- ===== src/Scanner/Stop.antt =====
-- `stopScan` comes to its end.
use spacedisplay.Common.{
  ℕ, zero, suc, ◌+◌, ◌≤◌, ◌≡◌, refl, sym, subst, ◌∙◌, ◌⊎◌, inl, inr, Bool, true, false, List, [],
  ◌∷◌, Bool-cases, arith, Str,
}
use spacedisplay.Common.Int.{ℤ}
use spacedisplay.FilePath.{Host, get_path}
use spacedisplay.FilePath.Results.{Result-cases}
use spacedisplay.FileEntry.{Ptr}
use spacedisplay.Scanner.Queue.{ScanRequest, add_children_to_queue}
use spacedisplay.Scanner.Control.{stop_scan}
use spacedisplay.Scanner.State.{
  ScannerStatus, idle, scanning, stopping, scan_paused, World, SpaceScanner,
}
use spacedisplay.Scanner.Scan.{scan_children_at}
use spacedisplay.Scanner.Worker.{
  Pc, loop_head, idle_test, asleep, scan_test, visiting, visited, pause_test, adding, finishing,
  finished, ended, crashed, Worker, watch_dir, start_scan, visit_dir, step,
}
use spacedisplay.Scanner.Quiet.{Quiet, check_for_events-Quiet, watch_dir-Quiet}

abbrev pub Stopped : Worker → Type 0
Stopped w = (w.scanner.scanner_status ≡ idle) ⊎ ((w.pc ≡ ended) ⊎ (w.pc ≡ crashed))

-- How many steps it takes at most from a place until the status is idle.
abbrev pub distance : Pc → ℕ
distance loop_head = 7
distance idle_test = 6
distance asleep = 7
distance (scan_test rec) = 5
distance (visiting r rec) = 4
distance (visited r rec entries paths) = 3
distance (pause_test rec paths) = 7
distance (adding rec paths) = 6
distance (finishing rec) = 2
distance (finished rec) = 1
distance ended = 0
distance crashed = 0

pub record IsStopping (w : Worker) : Type 0 where
  pub status : w.scanner.scanner_status ≡ stopping
  pub quiet : Quiet w.scanner.watcher

-- How a worker may go on: it has stopped, or it stands at most `n` steps before that.
abbrev pub OnTheWay : ℕ → Worker → Type 0
OnTheWay n w = Stopped w ⊎ ((distance w.pc ≤ n) × IsStopping w)

visit_dir-OnTheWay :
    (host : Host) (world : World) (r : ScanRequest) (rec : Bool) (s : SpaceScanner)
    → s.scanner_status ≡ stopping
    → Quiet s.watcher
    → OnTheWay 3 (visit_dir host world r rec s)
unfolding visit_dir
visit_dir-OnTheWay host world r rec s e q =
    let path = get_path host r.path true in
    let t = watch_dir world path s in
    let (e', q') = watch_dir-Quiet world path s q in
    let scan = scan_children_at host t r.path r.recursive (world.list_dir path) (start_scan t) in
    elim (Result-cases scan) [
      | inl refused ↦ rw (visit_dir, refused) (inl (inr (inr refl)))
      | inr (c, found) ↦
          rw (visit_dir, found) (inr (omega arith, record { status = e' ∙ e; quiet = q' }))
    ]

-- A scanner that is stopping.
abbrev stop_it : SpaceScanner → SpaceScanner
stop_it s = record s { scanner_status = stopping }

stop_it-step :
    (host : Host) (sort : (Ptr → ℤ) → List Ptr → List Ptr) (world : World) (line : Str)
    (s : SpaceScanner) (queue : List ScanRequest) (pc : Pc) (n : ℕ)
    → Quiet s.watcher
    → distance pc ≤ suc n
    → OnTheWay n (
        step host sort world line
          (record { scanner = record (stop_it s) { scan_queue = queue }; pc = pc }))
unfolding step
stop_it-step host sort world line s queue loop_head n q h = elim (Bool-cases s.run_worker) [
  | inl e ↦ rw (step, e) (inr (omega arith, record { status = refl; quiet = q }))
  | inr e ↦ rw (step, e) (inl (inr (inl refl)))
]
stop_it-step host sort world line s [] idle_test n q h =
    inr (omega arith, record { status = refl; quiet = q })
stop_it-step host sort world line s (r ∷ rs) idle_test n q h =
    inr (omega arith, record { status = refl; quiet = q })
stop_it-step host sort world line s queue asleep n q h =
    let (e, q') = check_for_events-Quiet host (record (stop_it s) { scan_queue = queue }) q in
    inr (omega arith, record { status = e; quiet = q' })
stop_it-step host sort world line s [] (scan_test rec) n q h =
    inr (omega arith, record { status = refl; quiet = q })
stop_it-step host sort world line s (r ∷ rs) (scan_test rec) n q h =
    inr (omega arith, record { status = refl; quiet = q })
stop_it-step host sort world line s queue (visiting r rec) n q h =
    go (visit_dir-OnTheWay host world r rec (record (stop_it s) { scan_queue = queue }) refl q)
  where
    go : {w : Worker} → OnTheWay 3 w → OnTheWay n w
    go (inl stopped) = inl stopped
    go (inr (near, still)) = inr (omega arith, still)
stop_it-step host sort world line s queue (visited r rec entries paths) n q h =
    inr (omega arith, record { status = refl; quiet = q })
stop_it-step host sort world line s queue (pause_test rec paths) n q h =
    inr (omega arith, record { status = refl; quiet = q })
stop_it-step host sort world line s queue (adding rec []) n q h =
    let (e, q') = check_for_events-Quiet host (record (stop_it s) { scan_queue = queue }) q in
    inr (omega arith, record { status = e; quiet = q' })
stop_it-step host sort world line s queue (adding rec (p ∷ ps)) n q h =
    let queue' = add_children_to_queue (p ∷ ps) true false queue in
    let (e, q') = check_for_events-Quiet host (record (stop_it s) { scan_queue = queue' }) q in
    inr (omega arith, record { status = e; quiet = q' })
stop_it-step host sort world line s queue (finishing rec) n q h =
    inr (omega arith, record { status = refl; quiet = q })
stop_it-step host sort world line s queue (finished rec) n q h = inl (inl refl)
stop_it-step host sort world line s queue ended n q h = inl (inr (inl refl))
stop_it-step host sort world line s queue crashed n q h = inl (inr (inr refl))

step-OnTheWay :
    (host : Host) (sort : (Ptr → ℤ) → List Ptr → List Ptr) (world : World) (line : Str) (w : Worker)
    (n : ℕ)
    → IsStopping w
    → distance w.pc ≤ suc n
    → OnTheWay n (step host sort world line w)
step-OnTheWay host sort world line w n stop h =
    subst (λ s. OnTheWay n (step host sort world line (record w { scanner = s })))
      (λ i. record w.scanner { scanner_status = sym stop.status i })
      (stop_it-step host sort world line w.scanner w.scanner.scan_queue w.pc n stop.quiet h)

at_end : (pc : Pc) → distance pc ≤ 0 → (pc ≡ ended) ⊎ (pc ≡ crashed)
at_end ended h = inl refl
at_end crashed h = inr refl
at_end loop_head h = absurd (omega arith)
at_end idle_test h = absurd (omega arith)
at_end asleep h = absurd (omega arith)
at_end (scan_test rec) h = absurd (omega arith)
at_end (visiting r rec) h = absurd (omega arith)
at_end (visited r rec entries paths) h = absurd (omega arith)
at_end (pause_test rec paths) h = absurd (omega arith)
at_end (adding rec paths) h = absurd (omega arith)
at_end (finishing rec) h = absurd (omega arith)
at_end (finished rec) h = absurd (omega arith)

distance-bound : (pc : Pc) → distance pc ≤ 7
distance-bound ended = omega arith
distance-bound crashed = omega arith
distance-bound loop_head = omega arith
distance-bound idle_test = omega arith
distance-bound asleep = omega arith
distance-bound (scan_test rec) = omega arith
distance-bound (visiting r rec) = omega arith
distance-bound (visited r rec entries paths) = omega arith
distance-bound (pause_test rec paths) = omega arith
distance-bound (adding rec paths) = omega arith
distance-bound (finishing rec) = omega arith
distance-bound (finished rec) = omega arith

-- `n` steps of the thread, with what the system answers and the line that is logged at each.
unfoldable pub steps :
    Host → ((Ptr → ℤ) → List Ptr → List Ptr) → (ℕ → World) → (ℕ → Str) → ℕ → Worker → Worker
steps host sort worlds lines zero w = w
steps host sort worlds lines (suc n) w =
    step host sort (worlds n) (lines n) (steps host sort worlds lines n w)

module _ (host : Host) (sort : (Ptr → ℤ) → List Ptr → List Ptr) (worlds : ℕ → World)
    (lines : ℕ → Str) where
  steps-OnTheWay :
      (k m : ℕ) (w : Worker)
      → k + m ≡ 7
      → IsStopping w
      → distance w.pc ≤ 7
      → ((n : ℕ) × (n ≤ k) × Stopped (steps host sort worlds lines n w))
        ⊎ ((distance (steps host sort worlds lines k w).pc ≤ m)
            × IsStopping (steps host sort worlds lines k w))
  unfolding steps
  steps-OnTheWay zero m w e stop near = inr (omega arith, stop)
  steps-OnTheWay (suc k) m w e stop near = go (steps-OnTheWay k (suc m) w (omega arith) stop near)
    where
      here :
          OnTheWay m (steps host sort worlds lines (suc k) w)
          → ((n : ℕ) × (n ≤ suc k) × Stopped (steps host sort worlds lines n w))
            ⊎ ((distance (steps host sort worlds lines (suc k) w).pc ≤ m)
                × IsStopping (steps host sort worlds lines (suc k) w))
      here (inl stopped) = inl (suc k, omega arith, stopped)
      here (inr still) = inr still

      go :
          ((n : ℕ) × (n ≤ k) × Stopped (steps host sort worlds lines n w))
            ⊎ ((distance (steps host sort worlds lines k w).pc ≤ suc m)
                × IsStopping (steps host sort worlds lines k w))
          → ((n : ℕ) × (n ≤ suc k) × Stopped (steps host sort worlds lines n w))
            ⊎ ((distance (steps host sort worlds lines (suc k) w).pc ≤ m)
                × IsStopping (steps host sort worlds lines (suc k) w))
      go (inl (n, h, stopped)) = inl (n, omega arith, stopped)
      go (inr (h, still)) = here (
          step-OnTheWay host sort (worlds k) (lines k) (steps host sort worlds lines k w) m still h)

  stopping-ends :
      (w : Worker) → IsStopping w → (n : ℕ) × (n ≤ 7) × Stopped (steps host sort worlds lines n w)
  stopping-ends w stop = elim (steps-OnTheWay 7 0 w refl stop (distance-bound w.pc)) [
    | inl found ↦ found
    | inr (h, still) ↦ (7, omega arith, inr (at_end (steps host sort worlds lines 7 w).pc h))
  ]

  -- When `stopScan` is called while no event waits, the worker's status is idle after at most
  -- seven of its steps, or the thread has ended or was left by an exception, whatever the system
  -- answers.
  pub stop_scan-ends :
      (w : Worker)
      → Quiet w.scanner.watcher
      → (n : ℕ) × (n ≤ 7)
        × Stopped (steps host sort worlds lines n (record w { scanner = stop_scan w.scanner }))
  unfolding steps stop_scan
  stop_scan-ends w q = go w.scanner.scanner_status refl
    where
      go :
          (status : ScannerStatus)
          → w.scanner.scanner_status ≡ status
          → (n : ℕ) × (n ≤ 7)
            × Stopped (steps host sort worlds lines n (record w { scanner = stop_scan w.scanner }))
      go idle e = (0, omega arith, inl (rw e refl))
      go scanning e =
          stopping-ends (record w { scanner = stop_scan w.scanner })
            (rw (stop_scan, e) (record { status = refl; quiet = q }))
      go scan_paused e =
          stopping-ends (record w { scanner = stop_scan w.scanner })
            (rw (stop_scan, e) (record { status = refl; quiet = q }))
      go stopping e =
          stopping-ends (record w { scanner = stop_scan w.scanner })
            (rw (stop_scan, e) (record { status = refl; quiet = q }))
