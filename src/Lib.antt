-- ===== src/Lib.antt =====
-- A verification library for this repository: a scheduling class for a Linux kernel, a job-control
-- shell, two packet filters, a system call, a listing of processes and a character device, modelled
-- as functions and relations and proved about.
--
-- Parts, and the files that model them:
-- * The TS scheduling class, temp/kernel/sched/ts.c, is Sched/Ts: `Rq` holds the forty queues and the
--   tasks, each method of the class is a function of its name on `Rq`, and `none` is an index
--   outside an array. Sched/Ts/Level is about the levels and the wake-up table, Queues about
--   enqueue and dequeue, Pick about the choice of a task, Feedback about the time slices.
-- * The tasks, policies and resched_curr (temp/kernel/sched/sched.h, temp/include/linux/sched.h,
--   temp/kernel/sched/core.c) are Sched/Task.
-- * How core.c gives a task its priority and class is Sched/Policy: `setscheduler_params`,
--   `setscheduler` and `setprio` are __setscheduler_params, __setscheduler and the assignments of
--   rt_mutex_setprio; `sched_fork` is the scheduling part of the function of its name.
-- * How core.c chooses the next task is Sched/PickNext. It calls the TS class of Sched/Ts; the
--   methods of the other classes are an argument (`Others`).
-- * How core.c changes a task that may be queued (set_user_nice, rt_mutex_setprio), and whom
--   __sched_setscheduler lets do it, is Sched/Change. What the whole of it does to the run queue is
--   Sched/Setscheduler, with the system calls over it. Sched/Reach puts the operations in
--   any order, from init_ts_rq on.
-- * How core.c wakes tasks, and its tick, sched_yield and __schedule, are Sched/Schedule, which joins
--   the class, the choice of the next task and the change of a task.
-- * The real-time class, temp/kernel/sched/rt.c, is Sched/Rt: Arrays has the invariant of lists, bitmap
--   and counts, Entities and Queue are about queueing, Turn and Robin about the choice of a task and
--   the tick, Restore about a task that keeps its place, Bandwidth is the throttling and the period
--   timer, Methods the methods that charge the time first, Share the run time that CPUs lend each other and take back, and Reach puts the operations
--   in any order.
-- * The calls that ask or change little (nice, sched_getattr, sched_rr_get_interval) are Sched/Queries.
-- * linux/list.h is the interface ListHead: a client takes the operations and their laws as
--   arguments, and Sched/Examples fills them with lists of numbers.
-- * assignment3-1/jankersh.c is Shell. Shell/Lexer is tokenize2; Shell/Job the jobs and the list
--   of them; Shell/Exec is execJob2, execJobs, addJobs and theReaper, with the descriptors of its
--   children in Shell/Exec/Wiring; Shell/Builtin is inBuiltCommands and a round of main, and
--   Shell/Rounds any sequence of such rounds with the reaper between them. What the tokenizer yields is
--   cut at `&` into jobs by addJobs, and each job is cut at `|` and redirections by execJob2.
-- * drop_flow_byte.c and rate_limit.c are Filter/DropFlow and Filter/RateLimit, over the packets and
--   the hash of Filter/Packet.
-- * assignment4-1/xmerge.c is Xmerge: a function for each loop and for the code after __error_return,
--   over a kernel that is an argument (`Kernel`). What the file calls are relied on for is
--   Xmerge/Files, where a write may be short; Xmerge/Examples has a kernel for which it holds.
-- * assignment 1/myps.c is Ps: Ps/Things is getThings and getUid, over the texts of the files under
--   /proc, and Ps itself the rest, over a qsort.
-- * myfirst.c is Myfirst; the calls that register with the kernel are an argument (`Registry`).
-- * Common holds the numbers, lists and tests that the parts share.
--
-- Bounds and fuel. The tokenizer has fuel for two rounds per byte of the line and one more, since an
-- operator byte is read a second time as a blank; every line ends within it. pick_next_task takes
-- fuel for its jumps to `again`; running out is an outcome of its own. xmerge takes
-- fuel for the reads of one file: one more than its bytes is enough. Integers of 32 and 64 bits
-- wrap where the code computes with them.
--
-- Not modelled: the kernel's deadline, fair and idle classes and the rest of its core, the groups of
-- real-time tasks and their movement between CPUs, printk and all printing of text, memory that is
-- not freed, terminal and signal calls of the shell, mysum.c, info.c of assignment 1, the opening
-- of the files under /proc, and the exercises that only call the system. open, fork, waitpid, the
-- allocator and the clock are arguments. The queues are those of one CPU, and a hook or a method
-- runs to its end.
pub mod Common
pub mod ListHead
pub mod Sched
pub mod Shell
pub mod Filter
pub mod Xmerge
pub mod Myfirst
pub mod Ps
