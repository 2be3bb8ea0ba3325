-- ===== src/Scanner/Reading.antt =====
-- The worker on directories that it reads with the iterator of Linux.
use spacedisplay.Common.{◌≡◌, true}
use spacedisplay.FilePath.{Host, is_dir}
use spacedisplay.Scanner.Worker.{Pc, visiting, Worker}

-- What is visited is a directory.
abbrev pub VisitsDir : Host → Pc → Type 0
VisitsDir host (visiting r rec) = is_dir host r.path ≡ true
VisitsDir host _ = Unit {0}
