-- ===== src/Lib.antt =====
-- tools-on-linux: a queue for threads, a wrapper of poll(2) that can be woken, a thread object, a log,
-- and small helpers.
--
-- Queue (Queue.h, Queue.cpp) is a singly linked list under a mutex with two condition variables.
--   Queue/State has the object: the fields of the class, the heap that holds its elements, the
--   events that it sends out (signals, broadcasts, callbacks), and the monad of its methods, where
--   a read through NULL or of freed memory is a fault. Queue/Push, Queue/Pop and Queue/Flush are
--   _pushElement, _popElement, _peekElement and _flushElements; Queue/Calls has the constructors
--   and the public methods around them. A call that may sleep is cut at pthread_cond_wait: it then
--   `waits` on a condition, and push_woken and pop_woken go on from there. What the mutex calls and
--   calloc give are arguments. Memory/Chain and Queue/Represents say when the object holds a list;
--   Queue/Order has the insertion on lists; Queue/Contract has the public methods. Queue/Threads
--   puts any number of threads on one object: a step is a call, which starts where the mutex is
--   free and is run as a whole under it up to where it sleeps, the going on of a woken thread, a
--   wakeup without a signal, or one of the two parts of setAllowedNewData, which broadcasts after
--   its unlock; the system chooses whom a signal wakes.
-- QueueSimple (QueueSimple.cpp) is the example program. QueueSimple has the comparator,
--   QueueSimple/Modes the mode functions, QueueSimple/Workers threadLoop of the producer and of the
--   consumer, with the structs that they hand over, QueueSimple/Exchange their calls in any order,
--   QueueSimple/Main the loop of main that waits for the threads. What malloc and calloc give are
--   arguments.
-- Poll (Poll.h, Poll.cpp) keeps an array of struct pollfd, a control socket, and three atomic
--   counters. Poll/State has the object, Poll/Table the methods on the array, Poll/Control the
--   wake-up, Poll/Closing the destructor, Poll/Wait the steps of wait and of setFlushing(true)
--   beside each other, Poll/Flushing any number of calls of both; the two loads of the test in
--   setFlushing are one step there. What socketpair, realloc, poll, read and write give are
--   arguments; an access outside the array or through NULL is a fault.
-- Thread (Thread.h, Thread.cpp) starts a thread that calls back into a derived class. Thread/State
--   has the object and its methods, Thread/Loop the steps of the started thread, Thread/Waiting
--   that thread beside any number of callers that wait for it.
-- Utils (Utils.cpp, Utils.h): Utils/Codec reads and writes numbers in big-endian order,
--   Utils/Rounding has the rounding macros on a uint32_t, Utils/Time TIME_ARGS.
-- Logger (Logger.h, Logger.cpp) has the log level and a table of eight tags. Logger/State has the
--   globals and the functions on them; what logPrint writes is a list of parts. Logger/Macros has
--   the levels and the macros of Logger.h, Logger/File Logger_set_file, with the files that are
--   open; what fopen gives is an argument.
-- Mutex (Mutex.h) and Condition (Condition.h) wrap pthread. Pthread has what they take from it, as
--   a record of operations and of what they are documented to do; Mutex has the methods and the
--   scope of an Autolock, Condition/Calls the methods of Condition, Condition/Deadline the
--   arithmetic of its timed waits. The models of Queue, Poll and Thread have the lock as part of
--   their own steps.
-- Demo (main.cpp) has the thread of the demonstration.
-- Times (Times.cpp) reads the clock in three units, and has the clock of Logger.cpp too; what
--   clock_gettime gives is an argument.
-- ErrorCode (ErrorCode.h) has the codes, with the values of errno on Linux.
-- Prelude has the shared names, the integers and the programs over a state; Bits has the lemmas on
-- bitwise operations.
--
-- Unsigned fields keep their wrap-around; an int of Poll is its 32-bit pattern, an int64_t of Utils its
-- 64-bit pattern. Loops over the list run on fuel, one more than the counter of elements, which
-- suffices for a valid queue, as the theorems on the public methods show: they give the result, not
-- only its shape. The loops over the control socket run on the list of what its calls give, and the
-- destructor's loop on the list of what pthread_mutex_destroy gives. The steps of a started thread are
-- counted by `rounds`.
--
-- Not modelled: main of main.cpp, which calls methods that Thread does not have; what
-- QueueSimple.cpp prints, its average times, and the start and the end of its main; the formatting
-- of a log line; threads between the lock and the unlock of a call of Queue, since the mutex keeps the
-- others out.
pub mod Prelude
pub mod Logger
pub mod Memory
pub mod Condition
pub mod Pthread
pub mod Mutex
pub mod ErrorCode
pub mod Poll
pub mod Queue
pub mod QueueSimple
pub mod Bits
pub mod Thread
pub mod Demo
pub mod Times
pub mod Utils
