-- ===== src/Examples/Navigation.antt =====
-- Calls of the window on the paths of the tests.
use spacedisplay.Common.{none, List, [], ◌∷◌}
use spacedisplay.SpaceView.{SpaceView, set_scanner}
use spacedisplay.SpaceView.Refinement.{
  Call, visit_path, home, up, back, forward, calls, meanings, IsOpen, calls-IsOpen,
}
use spacedisplay.Examples.Paths.{root_path, home_path}

abbrev pub closed : SpaceView
closed = record {
  scanner_root = none;
  path_history = [];
  path_history_pointer = 0;
  current_depth = 5;
  current_path = root_path;
}

abbrev some_calls : List Call
some_calls = visit_path home_path ∷ up ∷ back ∷ back ∷ forward ∷ home ∷ []

calls-IsOpen_example :
    IsOpen root_path
      (calls some_calls (set_scanner root_path closed))
      (meanings some_calls (record { before = []; shown = root_path; ahead = [] }))
calls-IsOpen_example = calls-IsOpen root_path some_calls closed
