-- ===== src/Scanner/Races.antt =====
-- What the other threads' calls lose when they come in at the wrong moment.
use spacedisplay.Common.{
  ◌≡◌, refl, sym, subst, inl, inr, ◌⊎◌, List-cases, Bool, true, false, some, List, [], ◌∷◌, ◌≢◌,
  ◌++◌, push_back-ne-nil, Str,
}
use spacedisplay.Common.Int.{ℤ}
use spacedisplay.FilePath.{Host, ok, FilePath, from_path, get_root}
use spacedisplay.FileEntry.{Ptr}
use spacedisplay.FileDb.{FileDb, find_entry}
use spacedisplay.FilePath.Results.{Result-cases}
use spacedisplay.SpaceWatcher.{FileEvent}
use spacedisplay.SpaceWatcher.Linux.{LinuxSpaceWatcher}
use spacedisplay.Scanner.Queue.{ScanRequest, request, erase_covered, push_request, add_to_queue}
use spacedisplay.Scanner.State.{
  scanning, World, SpaceScanner, update_disk_space, queue_event, queue_events, check_for_events,
}
use spacedisplay.Scanner.Worker.{finished, scan_test, visiting, adding, Worker, queue_paths, step}
use spacedisplay.Scanner.Control.{rescan_path}

module _ (host : Host) (sort : (Ptr → ℤ) → List Ptr → List Ptr) where
  -- The worker alone, with what the system answers at each step.
  unfoldable pub run : List (World × Str) → Worker → Worker
  unfolding step
  run [] w = w
  run ((world, line) ∷ answers) w = run answers (step host sort world line w)

  -- What a round that finds the status idle leaves.
  abbrev Dropped : SpaceScanner → Worker → Type 0
  Dropped s w =
      (w.pc ≡ finished false)
      × (w.scanner.scan_queue ≡ [])
      × (w.scanner.db.store ≡ s.db.store)
      × (w.scanner.db.entries_map ≡ s.db.entries_map)

  finished-Dropped :
      (s : SpaceScanner) (rec : Bool) (r : ScanRequest) (q : List ScanRequest)
      (a b c d f : World × Str)
      → s.run_worker ≡ true
      → s.scan_queue ≡ r ∷ q
      → Dropped s (run (a ∷ b ∷ c ∷ d ∷ f ∷ []) (record { scanner = s; pc = finished rec }))
  unfolding run
  finished-Dropped s rec r q a b c d f runs e =
      subst
        (λ (t : SpaceScanner).
          Dropped t (run (a ∷ b ∷ c ∷ d ∷ f ∷ []) (record { scanner = t; pc = finished rec })))
        (λ i. record s { run_worker = sym runs i; scan_queue = sym e i }) (refl, refl, refl, refl)

  -- A rescan that is asked for between the last unlock of a round and the line that sets the
  -- status to idle is dropped: five steps later the worker stands at the same place with an empty
  -- queue, and the entries are what they were.
  pub rescan_path-lost :
      (s : SpaceScanner) (rec : Bool) (path : FilePath) (e : Ptr) (asked : World)
      (a b c d f : World × Str)
      → s.run_worker ≡ true
      → find_entry host s.db path ≡ some e
      → let before : Worker = record {
        scanner = rescan_path host asked path s;
        pc = finished rec;
      } in
        let after = run (a ∷ b ∷ c ∷ d ∷ f ∷ []) before in
        (before.scanner.scan_queue ≢ []) × Dropped s after
  unfolding rescan_path add_to_queue
  rescan_path-lost s rec path e asked a b c d f runs found =
      subst
        (λ (t : SpaceScanner).
          (t.scan_queue ≢ [])
          × Dropped s (run (a ∷ b ∷ c ∷ d ∷ f ∷ []) (record { scanner = t; pc = finished rec })))
        (sym accepted) ((λ z. cc), finished-Dropped (queued s) rec _ _ a b c d f runs refl)
    where
      queued : SpaceScanner → SpaceScanner
      queued s =
          let t = update_disk_space host asked (record s {
            scanner_status = scanning;
            available_roots = asked.available_mounts;
            excluded_mounts = asked.excluded_paths;
          }) in
          record t { scan_queue = add_to_queue path true false t.scan_queue }

      accepted : rescan_path host asked path s ≡ queued s
      accepted = rw (found, rescan_path) refl

  -- A scan runs, and has a request to go on with.
  abbrev Goes : SpaceScanner → Type 0
  Goes s = (s.scanner_status ≡ scanning) × (s.scan_queue ≢ [])

  queue_event-db : (event : FileEvent) (s : SpaceScanner) → (queue_event host event s).db ≡ s.db
  unfolding queue_event
  queue_event-db event s = elim (List-cases event.parentpath) [
    | inl n ↦ rw (n, queue_event) refl
    | inr (c, path, e) ↦ elim (Result-cases (from_path host (c ∷ path) (get_root s.db.root_path))) [
      | inl n ↦ rw (e, n, queue_event) refl
      | inr (p, f) ↦ rw (e, f, queue_event) refl
    ]
  ]

  add_to_queue-ne-nil : (p : FilePath) (q : List ScanRequest) → add_to_queue p false true q ≢ []
  unfolding add_to_queue push_request
  add_to_queue-ne-nil p q = push_back-ne-nil (erase_covered p q) (request p false)

  -- Events only ever make a scan go on.
  queue_event-Goes :
      (event : FileEvent) (s : SpaceScanner)
      → Goes (queue_event host event s) ⊎ (queue_event host event s ≡ s)
  unfolding queue_event
  queue_event-Goes event s = elim (List-cases event.parentpath) [
    | inl n ↦ inr (rw (n, queue_event) refl)
    | inr (c, path, e) ↦ elim (Result-cases (from_path host (c ∷ path) (get_root s.db.root_path))) [
      | inl n ↦ inr (rw (e, n, queue_event) refl)
      | inr (p, f) ↦ inl (rw (e, f, queue_event) (refl, add_to_queue-ne-nil p s.scan_queue))
    ]
  ]

  queue_events-Goes :
      (events : List FileEvent) (s : SpaceScanner) → Goes s → Goes (queue_events host events s)
  unfolding queue_events
  queue_events-Goes [] s g = g
  queue_events-Goes (event ∷ events) s g =
      queue_events-Goes events (queue_event host event s)
        (elim (queue_event-Goes event s) [ inl f ↦ f | inr f ↦ subst Goes (sym f) g ])

  queue_event-accepts :
      (event : FileEvent) (s : SpaceScanner) (p : FilePath)
      → event.parentpath ≢ []
      → from_path host event.parentpath (get_root s.db.root_path) ≡ ok p
      → Goes (queue_event host event s)
  unfolding queue_event
  queue_event-accepts event s p n e = elim (List-cases event.parentpath) [
    | inl m ↦ absurd (n m)
    | inr (c, path, m) ↦ rw (m, (rw m at e), queue_event) (refl, add_to_queue-ne-nil p s.scan_queue)
  ]

  -- One event of which the path can be made is enough, wherever it stands among the others.
  queue_events-accepts :
      (before after : List FileEvent) (event : FileEvent) (s : SpaceScanner) (p : FilePath)
      → event.parentpath ≢ []
      → from_path host event.parentpath (get_root s.db.root_path) ≡ ok p
      → Goes (queue_events host (before ++ event ∷ after) s)
  unfolding queue_events
  queue_events-accepts [] after event s p n o =
      queue_events-Goes after (queue_event host event s) (queue_event-accepts event s p n o)
  queue_events-accepts (e ∷ before) after event s p n o =
      queue_events-accepts before after event (queue_event host e s) p n (
        subst (λ (db : FileDb). from_path host event.parentpath (get_root db.root_path) ≡ ok p)
          (sym (queue_event-db e s)) o)

  check_for_events-accepts :
      (before after : List FileEvent) (event : FileEvent) (s : SpaceScanner) (w : LinuxSpaceWatcher)
      (p : FilePath)
      → s.watcher ≡ some w
      → w.base.event_queue ≡ before ++ event ∷ after
      → event.parentpath ≢ []
      → from_path host event.parentpath (get_root s.db.root_path) ≡ ok p
      → Goes (check_for_events host s)
  unfolding check_for_events
  check_for_events-accepts before after event s w p e f n o =
      rw (e, f, check_for_events) (queue_events-accepts before after event _ p n o)

  -- The worker takes the next request.
  abbrev pub GoesOn : Bool → Worker → Type 0
  GoesOn rec w =
      ((r : ScanRequest) × (w.pc ≡ visiting r rec)) × (w.scanner.scanner_status ≡ scanning)

  Goes-GoesOn :
      (s : SpaceScanner) (rec : Bool) (world : World) (line : Str)
      → Goes s
      → GoesOn rec (step host sort world line (record { scanner = s; pc = scan_test rec }))
  unfolding step
  Goes-GoesOn s rec world line (g, ne) = elim (List-cases s.scan_queue) [
    | inl e ↦ absurd (ne e)
    | inr (r, queue, e) ↦ rw (e, g) ((r, refl), refl)
  ]

  -- When the worker comes from a directory and among the events that wait is one of which the path
  -- can be made, two steps later the worker goes on with a directory of the queue and the status is
  -- scanning, whatever the status was: also when the scan was to stop or to pause.
  pub check_for_events-overrides :
      (s : SpaceScanner) (w : LinuxSpaceWatcher) (before after : List FileEvent) (event : FileEvent)
      (p : FilePath) (rec : Bool) (paths : List FilePath) (a b : World × Str)
      → s.watcher ≡ some w
      → w.base.event_queue ≡ before ++ event ∷ after
      → event.parentpath ≢ []
      → from_path host event.parentpath (get_root s.db.root_path) ≡ ok p
      → GoesOn rec (run (a ∷ b ∷ []) (record { scanner = s; pc = adding rec paths }))
  unfolding run step queue_paths
  check_for_events-overrides s w before after event p rec [] a b e f n o =
      Goes-GoesOn (check_for_events host s) rec b.0 b.1
        (check_for_events-accepts before after event s w p e f n o)
  check_for_events-overrides s w before after event p rec (q ∷ paths) a b e f n o =
      let t = queue_paths (q ∷ paths) s in
      Goes-GoesOn (check_for_events host t) rec b.0 b.1
        (check_for_events-accepts before after event t w p e f n o)
