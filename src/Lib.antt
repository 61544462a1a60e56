-- ===== src/Lib.antt =====
-- FFZKit, a C++ toolkit of threads, event loops and utilities: a model of its core.
--
-- Base holds the names and lemmas that the other modules share: the native numbers, lists measured
-- by them, the Boolean tests, strings as lists of bytes (Base/Strings), and 64-bit words (Base/Words), whose wrap-around is
-- written out.
--
-- Thread, for src/Thread:
--   Thread/LoadCounter is ThreadLoadCounter of TaskExecutor.h and TaskExecutor.cpp: startSleep,
--   sleepWakeUp and load. The clock is an argument of every call. Sums and Window say what load
--   keeps and returns, History which states the calls of one thread reach; the threads of a ThreadPool
--   share a counter, and their calls are not in it.
--   Thread/Executors is TaskExecutorGetterImp of the same files: getExecutor, getExecutorLoad,
--   for_each. What load() answers is a function of the round and of the executor.
--   Thread/TaskQueue is TaskQueue.h with semaphore.h and Util/List.h. Steps is a relation on the
--   queue and the threads that push, post, wait and take; Accounting counts tokens, Order follows
--   the tasks.
--   Thread/ThreadGroup is ThreadGroup.h; the identifiers of threads are numbers.
--   Thread/ThreadPool is ThreadPool.h over the queue and the group: async, async_first, start and
--   shutdown. Steps is a relation on the threads in run, each of whose steps is a step of the queue;
--   Census counts the threads, Tasks follows the tasks, Shutdown says how the pool ends.
--
-- Util, for src/Util:
--   Util/ResourcePool is ResourcePool.h: the pool, the pointers that hold its objects, and the two
--   ways a pointer ends. An object is a number; whether a try-lock fails is an argument.
--   Util/NoticeCenter is NoticeCenter.h: the map of events, the dispatchers, which are shared objects
--   in a store, and emitEvent. Where the unordered multimap puts a listener is a parameter. Refine
--   compares it with the listeners of each event.
--   Util/Any is Any of util.h, which remembers the type that it was set with.
--   Util/Options is Option and OptionParser of CMD.h and CMD.cpp; what getopt_long answers for the
--   tables it is given is a parameter.
--   Util/Commands is CMDRegister of CMD.h: the map of commands, getArgs, and the call by name or by
--   a line.
--   Util/Text is start_with, end_with, split and trim of util.cpp and the split of CMD.h, on lists
--   of bytes. The loop of split runs on fuel, one more than the length of the string, which is
--   enough whenever the delimiter is not empty.
--   Util/Ini is mini.h: parse and dump, with tokenize, on a map in the order of its keys. Tokens,
--   Lines, Sections and Maps say what parse makes of the parts of what dump writes.
--   Util/Logger is logger.h and logger.cpp without the printing: the channels and the putting together
--   of repeated logs; Writer is AsyncLogWriter, a relation of the threads that write, of the one that
--   flushes, over the semaphore of Thread/TaskQueue, and of the destructor; FileChannel is the change
--   and the cleaning of log files, and Names their names and the scan at the start.
--   Util/Clock is the stamp thread of util.cpp, a round of which is a function of the time that was
--   read, and Ticker of TimeTicker.h.
--   Util/Files is File.cpp. Paths is parentDir and absolutePath, with exeDir and exeName of util.cpp;
--   the recursion of absolutePath runs on fuel, of which two are enough for an absolute directory of
--   the program. Create is create_path and create_file, whose loop has fuel for each byte of the path.
--   Scan is scanDir, and Delete is delete_file, isEmptyDir and deleteEmptyDir; fuel bounds the
--   depth of the directories. Where a run ends early, its state is kept and the theorems hold of it.
--
-- Poller, for src/Poller/EventPoller.h and EventPoller.cpp:
--   Poller/Timers is flushDelayTask, getMinDelay and doDelayTask on the ordered multimap of timers,
--   which the code shares with the callbacks: they set timers while the flush runs.
--   Poller/Async is async, async_first and onPipeEvent with the wakeup pipe, and a relation of the
--   threads that write to the pipe and of the loop that reads it. The pipe's capacity is a parameter.
--   Poller/Lifetime is shutdown and the destructor over this relation: the task that ends the loop, the
--   test of the flag, the join and the last flush, whose tasks may hand over new ones. Reopening the pipe may fail. A poller that its own thread destroys is not in it.
--   Poller/Events is addEvent, delEvent, modifyEvent and a round of runLoop, for epoll and for
--   select. What the kernel answers is an argument.
--   Poller/Pool is EventPollerPool, with addPoller and getExecutorDelay of
--   src/Thread/TaskExecutor.cpp; it selects a poller by getExecutor of Thread/Executors.
--   Poller/Pipe is PipeWrap.cpp and the callback of Pipe.cpp, over the calls of Network/Sockets; the
--   repetition of interrupted calls runs on fuel.
--
-- Network, for src/Network:
--   Network/Buffer is BufferRaw of Buffer.h: setCapacity, setSize and assign, on a block of bytes
--   some of which nobody has written; new[] is taken to find the memory.
--   Network/Sockets is sockutil.h and sockutil.cpp as they are built on Linux. The calls of the system
--   are a parameter whose answers depend on all calls that were made before; the calls are kept in a
--   log, and what is proved is read off the log. Options sets the options of a socket, Addresses
--   is inet_ntoa, make_sockaddr and the addresses of a socket, Dns the DNS cache, whose repetition of
--   interrupted calls runs on fuel, Streams connect and listen, Datagrams bindUdpSock and
--   dissolveUdpSock, and Adapters the list of network adapters. Opened follows the descriptors,
--   Bound what they are bound to, Dns/Known and Dns/Cached the items of the cache.
--
-- A TaskExecutor is a load counter, and EventPoller and ThreadPool are TaskExecutors: their loops call
-- startSleep and sleepWakeUp around each wait, and TaskExecutorGetterImp chooses one by load().
--
-- The loops are structural recursion but for those of split and of Util/Files.
--
-- Not modelled: the copies of other projects' code in src/win32, src/Util/local_time.cpp,
-- src/Util/strptime_win.cpp and src/Util/uv_errno.cpp, but for the translation of errors that is
-- used by the sockets; SelectWrap.cpp, which passes its calls on; the branches for Windows; what only reads or
-- writes a file in src/Util/File.cpp and src/Util/mini.h; the formatting of logs; the texts of
-- help.
pub mod Base
pub mod Thread
pub mod Util
pub mod Poller
pub mod Network
