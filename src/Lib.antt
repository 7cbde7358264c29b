-- ===== src/Lib.antt =====
-- The parts of a concurrent server in C++: a pool of memory chunks and the buffers on it, a logger
-- with a ring of lines, a timer, a thread pool, and the poller, the connections and the server of
-- net/. A connection keeps its bytes in buffers, whose chunks come from the pool; the server gives
-- each connection a timer, which closes it, and a loop, whose poller calls it.
--
-- Memory: memory/. Chunk is chunk.cpp, Store the heap and the fields of the one `Mempool`, Pool
-- mem_pool.cpp (`mem_init`, the constructor `init`, `alloc_chunk`, `retrieve`; Pool/Listing has the two functions
-- that walk over a free list, on fuel of which one more than the length is enough) and Buffer data_buf.cpp
-- (`write2buf`, `read_from_fd`, `write2fd` and the rest). A chunk is at an address of the heap, a
-- free list goes through `next`, and the bytes of a chunk are a function of the offset. Each function
-- is a step on the memory that can abort (`assert`, `exit`) or fault (undefined behaviour). A pool is
-- in good order (Pool/Invariant) if each class has its list of empty chunks of its capacity, none of
-- them handed out, and the two counters say what is there. What `new`, `ioctl`, `read` and `write`
-- answer is an argument. The loop over the six classes runs on fuel 7.
--
-- Log: log/. Queue is `buffer_queue` of log_queue.h, a ring of which a `pop` that has to wait is two
-- steps; Queue/Fifo is its specification, a list bounded by the capacity. Logger is the path of a
-- line through `write_log` of log.cpp, Logger/Init is `Logger::init` and the four macros of log.h, and
-- Logger/Names how `init` splits the path of the file; a file is named by a year, a month and a day.
-- Logger/Async has the writing thread of log.h: its accesses to the queue, its test of the flag and its
-- `fputs`, what the threads that log do to the open file and to the queue, and the flag of the
-- destructor are turns in any order. Level is the levels of pr.h, pr.cpp and log.h. Which files `fopen` opens is a parameter.
-- What the destructor frees, and `flush`, which changes no state of the model, are left out.
--
-- Timer: timer/. HashMap is hash_map.h, Schedule timer.h: the methods and one round of `run_local`
-- are steps on the timer, in any order (Schedule/History); times are nanoseconds, and what the clock
-- shows is an argument. Callbacks are posted, and not run. Tick is the thread that runs `run_local`,
-- with its test of `tm_running`, its lock, its sleep and its post behind the lock, against the methods
-- and the destructor. A method that adds a timer draws its identifier, puts it into the map and pushes
-- its node in three steps; the last waits while the thread is about to sleep. `cancel` and the
-- destructor's `notify_all` take no lock, and the thread may wake up from nowhere.
--
-- Threadpool: threadpool/threadpool.h. A step is one access of a worker, of a call of `post_task` or
-- of the destructor to what they share. A worker that is about to sleep on `tp_task_cv` still has the
-- lock, which is the one place where a step of another thread finds it taken; `notify_one` and
-- `notify_all` take no lock, and a sleeper may wake up from nowhere.
--
-- Net: net/. Epoll is epoll.cpp, where `epoll_ctl` is a parameter, of which Epoll/Interest says what
-- the code relies on, and the answers of `epoll_wait` are an argument; Epoll/History is any calls of its
-- methods, and EventLoop/Poller the poller of a loop from its constructor on. Connection is
-- tcp_conn.cpp, with the constructor and the setters in Connection/Setup; Connection/Answers says what
-- the kernel may answer to `write`. Connection/Stepwise has what holds of any events that add bytes to
-- an output, and Connection/History/Output its calls of `send` and `do_write`, in any order. Echo is
-- the message callback of tests/echo_server.cpp, and Echo/Stream a connection that has it. The loop of
-- `do_write` runs on the list of the kernel's answers, and its theorem supposes that there is one for
-- each call. Server is the choice of loops and the connections' timers of tcp_server.h and
-- tcp_server.cpp, Server/Start `TcpServer::start` and `Acceptor::listen`, where what `new` returns is
-- a parameter. EventLoop is the queue of tasks of event_loop.cpp, its flag and the descriptor that
-- wakes its thread, as steps in any order; Acceptor is `do_accept` of acceptor.cpp, on the list of the
-- answers of `accept`. Server/Setup is the constructors of `TcpServer` and `Acceptor`, on what the
-- system answers, and how the acceptor makes a connection; Server/Twice puts the closing of a
-- connection and its timer together. Not modelled are the signals that `TcpServer` ignores and the
-- option SO_REUSEADDR; webbench-1.5/ is another project's program.
--
-- Locks are not modelled as such: a method that holds one throughout is one step.
pub mod Base
pub mod Memory
pub mod Log
pub mod Timer
pub mod Threadpool
pub mod Net
