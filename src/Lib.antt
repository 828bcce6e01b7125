-- ===== src/Lib.antt =====
-- Footstone is a C++ base library for scheduling tasks. A `WorkerManager` keeps workers, each with a
-- thread; a `Worker` keeps groups of task runners; a `TaskRunner` keeps queues of tasks. A post to a
-- runner wakes its worker, whose loop asks `GetNextTask` for a task: the groups are sorted by priority
-- and running time, and the runner at the back of a group hands out its next task. Timers post to a
-- runner and decide, when the task comes, whether it is time. Beside these the library has queues, a
-- string view of four encodings, times, Base64, and a log.
--
-- Which file is about what, with the paths of the repository:
-- - Base: shared lists, integers, Boolean tests, stores, and `Outcome`, the result of code that may
--   leave the defined behaviour of C++. Base/Fifo is what the bounded queues are refined to.
-- - Base64: src/footstone/base64.cc. `encode` and `decode` are `Encode` and `Decode`, on bytes.
-- - SpscQueue: include/footstone/spsc_queue.h, for every index type. SpscQueue/Threads interleaves a thread
--   that pushes and one that pops; an atomic access is one step, and each index has one writer.
-- - MpmcQueue: include/footstone/mpmc_queue.h, on the ring of SpscQueue, while no other thread is in a call.
-- - MpmcList: include/footstone/mpmc_list.h, likewise. A tagged pointer has 48 bits of address and 16 of tag.
-- - ThreadPool: include/footstone/thread_pool.h, with any number of threads. A locked section is one step, and so is
--   a notification; a thread that waits sleeps until one wakes it, or wakes up of itself.
-- - SafeQueue: include/footstone/thread_safe_queue.h.
-- - StringView: src/footstone/unicode_string_view.cc and its header. `std::hash` of strings is a parameter.
--   The field `lost` counts the strings in whose place another one was constructed.
-- - Time: include/footstone/time_delta.h and time_point.h, on 64-bit nanoseconds.
-- - Runner: src/footstone/task_runner.cc, task.cc and idle_task.cc. `get_next` is `GetNext`, and so on.
-- - Specific: src/footstone/worker.cc from `WorkerKeyCreate` on, and `RunnerKeyCreate` and the functions
--   below it in task_runner.cc. It takes a runner from Runner.
-- - Scheduler: the rest of src/footstone/worker.cc. It calls the functions of Runner on a store of runners.
-- - Manager: src/footstone/worker_manager.cc and thread_worker.cc. Manager/Balance is `Balance`, `Resize` and
--   `AddWorker`; `Staff` and the modules after it count the runners of the workers. Manager/Loop is `Run` and
--   `RunLoop`, which Draining and Sleeping are about. The field `stopped` has the workers that were removed.
-- - Timer: src/footstone/base_timer.cc, one_shot_timer.cc, repeating_timer.cc and idle_timer.cc.
--   Timer/OnRunner joins a timer to a runner of Runner; Schedule, Runs and Late are about the two together.
-- - LoopWorker: src/platform/adr/loop_worker_impl.cc, on the `Worker` of Scheduler. A call of the looper is a
--   value that says what it returns and what happens in it; `timerfd_settime` sets the field `armed`, to its
--   flags and its time. When a descriptor that was set so expires is a parameter of Alarm.
-- - Logging: src/footstone/log_settings.cc, include/footstone/logging.h and the logging.cc of each platform
--   under src/platform. Logging/Sinks has the destructors, the delegates and the macros.
--
-- Conventions. A pointer is an index of a store, or `none` where it may be null. A closure is a number, and
-- the calls of closures are listed. The clock is an argument. Numbers of w bits wrap at 2 ^ w; a signed
-- overflow is a fault. A lock is held for a whole operation, so an operation is one step.
--
-- Fuel. The loop of `GetNext` has one unit for each delayed entry and one more: each round takes an entry
-- away. `consume_all` has as many rounds as its fuel, and one more than there are elements is enough; for
-- `push_until_success`, and for the loops of MpmcQueue and MpmcList, two rounds are. The loops of `RunLoop` and
-- `AddSubTaskRunner` end when a task ends them, so their fuel is an argument, and a run that uses it up is a
-- fault; the one of LoopWorker has a list of polls for it.
--
-- Not modelled: conversions of times from and to double; overlapping calls on mpmc_queue.h and
-- mpmc_list.h; the worker of iOS and the names of threads; third_party, which holds other
-- projects' code.
pub mod Base
pub mod Base64
pub mod SpscQueue
pub mod MpmcQueue
pub mod MpmcList
pub mod SafeQueue
pub mod ThreadPool
pub mod StringView
pub mod Time
pub mod Runner
pub mod Specific
pub mod Scheduler
pub mod Manager
pub mod Timer
pub mod LoopWorker
pub mod Logging
