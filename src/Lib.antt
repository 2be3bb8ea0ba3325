-- ===== src/Lib.antt =====
-- SpaceDisplay shows how the space of a disk is used: a scanner walks directories in a thread of
-- its own and fills a tree of entries, and a view of that tree is drawn as nested rectangles.
--
-- Files:
--   FilePath.antt and below: the class `FilePath` of lib/include/filepath.h and
--     lib/src/filepath.cpp, a path as its parts with a checksum for each prefix. The constructors
--     are `from_root` and `from_path`; the other functions have the methods' names. A string is
--     the list of its bytes. `Host` holds the platform and `crc16` of the crc library, which is
--     not part of the repository; nothing is assumed of it. The split of a string into parts has
--     fuel, as much as there are bytes, and takes one round for each slash.
--   Scanner/Queue.antt: `scanQueue` of lib/src/spacescanner.cpp with `addToQueue` and
--     `addChildrenToQueue`; the list's head is the front of the queue.
--   Scanner/State.antt, Scan.antt, Worker.antt, Control.antt and Progress.antt: the rest of
--     lib/src/spacescanner.cpp. `worker_run` is the function `step` on a place in the code and the
--     scanner's state, one step between two places where another thread can come in; `Step` adds
--     the calls of the interface, of the destructor and of the watcher's thread. What the system
--     answers (`World`) is an argument of each step. An exception in the thread leads to the place
--     `crashed`. `next` is the next free place in the heap of entries, and more than the depth of
--     any path or tree in it, so it is the fuel for the database. The division in
--     `getScanProgress` gives `none` by zero.
--   SpaceWatcher.antt and below: lib/src/spacewatcher.cpp and lib/private/LinuxSpaceWatcher.cpp, the
--     queue of events and the table of watch descriptors; inotify's answers are arguments.
--     SpaceWatcher/Windows.antt: lib/private/WinSpaceWatcher.cpp; the buffer is the list of its units of
--     16 bits, and `read_records` has as many rounds of fuel as there are notifications.
--   FileIterator.antt and below: lib/include/FileIterator.h, lib/private/LinuxFileIterator.cpp and
--     lib/private/WinFileIterator.cpp. `each_item` is the loop over an iterator; one round more than
--     there are names is enough fuel. Scanner/Reading.antt gives the worker this iterator.
--   PlatformUtils.antt and below: lib/private/LinuxPlatformUtils.cpp, the table of mounts.
--   FileManager.antt and below: lib/private/LinuxFileManager.cpp, the commands as strings.
--   Logger.antt: lib/src/logger.cpp.
--   FileEntry.antt and below: the class `FileEntry` of lib/include/fileentry.h and
--     lib/src/fileentry.cpp, with the methods' names. Entries stand in a store and point to each
--     other by numbers, since a child writes to its parents. `children` is the set of bins, in
--     decreasing order of size, each with its chain of entries. `onChildSizeChanged` calls itself
--     on the parent, so its fuel is the depth of the entry. Sizes are unbounded integers.
--   FileDb.antt and below: the class `FileDB` of lib/include/filedb.h and lib/src/filedb.cpp, over
--     the store of entries; FileDb/Update.antt has `setChildrenForPath` and `_cleanupEntryCrc`.
--     `entriesMap` is an association list from checksums to vectors. `std::sort` is a parameter.
--     Fuel bounds the depth of the path and, for `_cleanupEntryCrc`, the levels of entries below.
--   PriorityCache.antt and below: lib/include/PriorityCache.h, with the counter of accesses on 64
--     bits. Equality of keys, `std::sort` and the supplier are parameters.
--   View.antt and below: app-gui/src/fileentryview.cpp. View/Allocate.antt has `allocate_children`,
--     whose fuel is the number of children, View/Tree.antt the tree of views and the functions that
--     go through it, View/Trail.antt the way to the view under the mouse, View/Closest.antt the way
--     to the view of a path, View/Rebuild.antt how a view is made of an entry. Coordinates are
--     unbounded integers. A view's parent is the view that holds it.
--   FileViewDb.antt: app-gui/src/fileviewdb.cpp. What is computed with floats is a parameter.
--   SpaceView.antt and below: the history of paths in app-gui/src/spaceview.cpp, while a scanner is
--     open. SpaceView/Refinement.antt has the history of a browser that it implements.
--     SpaceView/Screen.antt and SpaceView/Events.antt have the state of the whole class and the
--     events of the window, with the menu of app-gui/src/fileentrypopup.cpp.
--   FileTooltip.antt and below: app-gui/src/filetooltip.cpp. The clock is an argument.
--   StatusView.antt: app-gui/src/statusview.cpp without its bars. The cast of an integer to `float`
--     is a parameter.
--   MainWindow.antt and below: app-gui/src/mainwindow.cpp, the actions as bits of a number, the slots
--     in MainWindow/Slots.antt. MainWindow/Session.antt has runs of events, between which the
--     threads of the scanner leave it in any state.
--   Common.antt: strings, vectors and integers. Examples.antt: runs on concrete inputs.
--
-- The scanner's queue holds paths; the database finds entries by paths and keeps their tree. The
-- worker takes a path, has its directory watched, reads the directory into new entries and gives
-- them to the database; the watcher's events become paths in the queue again. The
-- database's entry for the path that is shown becomes a tree of views with rectangles.
--
-- The window's slots call the space's view, which calls the scanner; on the timer the view looks at
-- the scanner again and calls the window back.
--
-- Not modelled: PlatformUtils and FileManager of Windows, drawing over Qt, dialogs, themes and
-- settings, the calls of the operating system, `deleteDir`, formatting and bars with floats.
pub mod Common
pub mod FilePath
pub mod Scanner
pub mod FileEntry
pub mod FileDb
pub mod PriorityCache
pub mod Logger
pub mod FileIterator
pub mod PlatformUtils
pub mod SpaceWatcher
pub mod View
pub mod FileViewDb
pub mod FileTooltip
pub mod StatusView
pub mod MainWindow
pub mod SpaceView
mod Examples
pub mod FileManager
