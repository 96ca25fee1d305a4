-- ===== src/Network/EventLoop.antt =====
-- The event loop of sol/src/network.c. What the calls of epoll(7) and timerfd(2) give is a parameter,
-- a closure is its address, and what the loop does is the list of its actions.
pub mod Calls
pub mod Timer
pub mod Tasks
use mqttbroker.Base.{
  ℕ, zero, suc, ◌+◌, ◌*◌, ◌%◌, ◌^◌, bit_and, Bool, ◌&&◌, ◌||◌, not, Option, none, some, List, [],
  ◌∷◌, ◌++◌, out_of_bounds, signed_overflow, dangling, Run, ok, fault, ◌>>=◌, take, ltb, ◌==◌,
  if◌then◌else◌,
}

-- epoll_data_t, a union: a descriptor, or the address of a closure.
pub data EpollData : Type 0 where
  descriptor : ℕ → EpollData
  pointer : ℕ → EpollData

-- struct epoll_event
pub record EpollEvent : Type 0 where
  pub events : ℕ
  pub epoll_data : EpollData

-- An element of `periodic_tasks`, with the address of its closure.
pub record Task : Type 0 where
  pub timerfd : ℕ
  pub closure : ℕ

-- struct evloop, without its array of events.
pub record EventLoop : Type 0 where
  pub epollfd : ℕ
  pub max_events : ℕ
  pub timeout : ℕ
  pub status : ℕ
  pub periodic_maxsize : ℕ
  pub periodic_nr : ℕ
  pub periodic_tasks : List Task

abbrev pub epollin : ℕ
epollin = 1

abbrev pub epollout : ℕ
epollout = 4

abbrev pub epollerr : ℕ
epollerr = 8

abbrev pub epollhup : ℕ
epollhup = 16

abbrev pub evloop_initial_size : ℕ
evloop_initial_size = 4

unfoldable pub evloop_init : ℕ → ℕ → ℕ → EventLoop
evloop_init epollfd max_events timeout = record {
  epollfd = epollfd;
  max_events = max_events;
  timeout = timeout;
  status = 0;
  periodic_maxsize = evloop_initial_size;
  periodic_nr = 0;
  periodic_tasks = [];
}

-- The array has room for `size` tasks.
abbrev pub store_task : EventLoop → ℕ → Task → Run EventLoop
store_task loop size task =
    if ltb loop.periodic_nr size
    then ok (record {
      epollfd = loop.epollfd;
      max_events = loop.max_events;
      timeout = loop.timeout;
      status = loop.status;
      periodic_maxsize = size;
      periodic_nr = loop.periodic_nr + 1;
      periodic_tasks = loop.periodic_tasks ++ (task ∷ []);
    })
    else fault out_of_bounds

-- `loop->periodic_maxsize *= 2`, an `int`
abbrev pub grown : EventLoop → Run ℕ
grown loop =
    if ltb loop.periodic_maxsize (loop.periodic_nr + 1)
    then (if ltb (loop.periodic_maxsize * 2) (2 ^ 31)
        then ok (loop.periodic_maxsize * 2)
        else fault signed_overflow)
    else ok loop.periodic_maxsize

-- `timer_set` and `timer_added` say whether timerfd_settime(2) and epoll_ctl(2) succeed.
unfoldable pub evloop_add_periodic_task : Bool → Bool → ℕ → ℕ → EventLoop → Run EventLoop
evloop_add_periodic_task timer_set timer_added timerfd cb loop =
    let added : Run EventLoop = (do
      size ← grown loop
      store_task loop size (record { timerfd = timerfd; closure = cb })) in
    if timer_set && timer_added then added else ok loop

-- The descriptor of an event is read from the lower half of an address.
abbrev pub data_fd : EpollData → ℕ
data_fd (descriptor fd) = fd
data_fd (pointer closure) = closure % 2 ^ 32

abbrev pub has : ℕ → EpollEvent → Bool
has flag ev = not (bit_and ev.events flag == 0)

-- An error, a hang-up, or neither readable nor writable.
unfoldable pub is_down : EpollEvent → Bool
is_down ev = has epollerr ev || (has epollhup ev || (not (has epollin ev) && not (has epollout ev)))

-- The descriptor is shut and closed, or the closure is called.
pub data Action : Type 0 where
  shut : ℕ → Action
  called : ℕ → Action

-- The loop over the periodic tasks: its index hides that of the events, so that it compares the task
-- at each index with the event at the same one.
unfoldable pub periodic_call : List EpollEvent → List Task → Run (Option ℕ)
periodic_call events [] = ok none
periodic_call [] (task ∷ tasks) = fault out_of_bounds
periodic_call (ev ∷ events) (task ∷ tasks) =
    let later = periodic_call events tasks in
    if data_fd ev.epoll_data == task.timerfd then ok (some task.closure) else later

-- The task that was found, or `closure->call(el, closure->args)`; the event of a timer holds no
-- address.
abbrev pub call_closure : EpollData → Option ℕ → Run Action
call_closure source (some closure) = ok (called closure)
call_closure (pointer closure) none = ok (called closure)
call_closure (descriptor fd) none = fault dangling

unfoldable pub handle_event : List EpollEvent → List Task → EpollEvent → Run Action
unfolding is_down
handle_event events tasks ev =
    let call : Run Action = (periodic_call events tasks >>= call_closure ev.epoll_data) in
    if is_down ev then ok (shut (data_fd ev.epoll_data)) else call

unfoldable pub handle_events : List EpollEvent → List Task → List EpollEvent → Run (List Action)
handle_events events tasks [] = ok []
handle_events events tasks (ev ∷ evs) = do
  action ← handle_event events tasks ev
  actions ← handle_events events tasks evs
  ok (action ∷ actions)

-- What epoll_wait(2) gives: EINTR, another error, or the number of events and the array with them.
pub data Waited : Type 0 where
  interrupted : Waited
  failed : ℕ → Waited
  ready : ℕ → List EpollEvent → Waited

-- What the calls of epoll_wait(2) give, one after the other, makes the loop do these actions, and
-- return -1 with the error as `status`, or go on waiting. The callbacks leave the tasks alone, and
-- the `status` that an event in error leaves is not kept.
unfoldable pub evloop_wait : List Task → List Waited → Run (List Action × Option ℕ)
evloop_wait tasks [] = ok ([], none)
evloop_wait tasks (interrupted ∷ waits) = evloop_wait tasks waits
evloop_wait tasks (failed errno ∷ waits) = ok ([], some errno)
evloop_wait tasks (ready n events ∷ waits) = do
  actions ← handle_events events tasks (take n events)
  (later, status) ← evloop_wait tasks waits
  ok (actions ++ later, status)
