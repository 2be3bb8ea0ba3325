-- ===== src/Logger.antt =====
-- The class `Logger` of lib/include/logger.h and lib/src/logger.cpp. The mutex makes every call one
-- step; the copy of each line on the console is left out.
use spacedisplay.Common.{Bool, true, false, List, [], ◌++◌, push_back, Str, codes}

pub record Logger : Type 0 where
  pub history : List Str
  pub has_new_log : Bool

abbrev pub new_logger : Logger
new_logger = record { history = []; has_new_log = false }

-- `Utils::strFormat("[%s] %s", ...)`.
abbrev pub log_line : Str → Str → Str
log_line msg tag = codes "[" ++ tag ++ codes "] " ++ msg

unfoldable pub log : Str → Str → Logger → Logger
log msg tag l = record { history = push_back l.history (log_line msg tag); has_new_log = true }

unfoldable pub get_history : Logger → Logger × List Str
get_history l = (record l { has_new_log = false }, l.history)

unfoldable pub clear : Logger → Logger
clear l = record { history = []; has_new_log = false }
