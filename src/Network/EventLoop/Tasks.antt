-- ===== src/Network/EventLoop/Tasks.antt =====
-- The growth of the array of periodic tasks.
use mqttbroker.Base.{
  ℕ, ◌+◌, ◌*◌, ◌^◌, ◌≤◌, ◌<◌, ◌≡◌, refl, inl, inr, Bool, true, ◌&&◌, List, [], ◌∷◌, ◌++◌, arith,
  Returns, length, length-append, ltb, if◌then◌else◌, lt→ltb, Bool-cases,
}
use mqttbroker.Network.EventLoop.{
  Task, EventLoop, evloop_init, evloop_add_periodic_task, store_task, grown,
}

-- The array has room for the tasks in it.
pub record IsEventLoop (loop : EventLoop) : Type 0 where
  pub counted : loop.periodic_nr ≡ length loop.periodic_tasks
  pub room : loop.periodic_nr ≤ loop.periodic_maxsize
  pub nonempty : 0 < loop.periodic_maxsize

init-IsEventLoop :
    (epollfd max_events timeout : ℕ) → IsEventLoop (evloop_init epollfd max_events timeout)
unfolding evloop_init
init-IsEventLoop epollfd max_events timeout = record {
  counted = refl;
  room = omega arith;
  nonempty = omega arith;
}

store_task-IsEventLoop :
    (loop : EventLoop) (size : ℕ) (task : Task)
    → IsEventLoop loop
    → loop.periodic_nr < size
    → Returns
        (store_task loop size task)
        λ loop'. IsEventLoop loop' × (loop'.periodic_tasks ≡ loop.periodic_tasks ++ (task ∷ []))
store_task-IsEventLoop loop size task w lt = (
  record {
    epollfd = loop.epollfd;
    max_events = loop.max_events;
    timeout = loop.timeout;
    status = loop.status;
    periodic_maxsize = size;
    periodic_nr = loop.periodic_nr + 1;
    periodic_tasks = loop.periodic_tasks ++ (task ∷ []);
  },
  rw (lt→ltb loop.periodic_nr size lt) refl,
  (
    record {
      counted = omega (arith, length-append loop.periodic_tasks (task ∷ []), w.counted);
      room = omega (arith, lt);
      nonempty = omega (arith, lt);
    },
    refl,
  ),
)

grown-room :
    (loop : EventLoop)
    → IsEventLoop loop
    → loop.periodic_maxsize < 2 ^ 30
    → Returns (grown loop) λ size. loop.periodic_nr < size
grown-room loop w h = elim (Bool-cases (ltb loop.periodic_maxsize (loop.periodic_nr + 1))) [
  | inl full ↦
      let fits : ltb (loop.periodic_maxsize * 2) (2 ^ 31) ≡ true =
        lt→ltb (loop.periodic_maxsize * 2) (2 ^ 31) (omega (arith, h)) in
      (loop.periodic_maxsize * 2, rw (full, fits) refl, omega (arith, w.room, w.nonempty))
  | inr free ↦ (loop.periodic_maxsize, rw free refl, ground (arith, free))
]

-- The tasks that are there after the call.
abbrev pub tasks_after : Bool → Bool → Task → List Task → List Task
tasks_after timer_set timer_added task tasks =
    if timer_set && timer_added then tasks ++ (task ∷ []) else tasks

-- A new event loop has room for its tasks, and while its array holds fewer than 2 ^ 30,
-- `evloop_add_periodic_task` returns, having left no array, with room for the tasks: those that were
-- there, in order, and the new one behind them if its timer could be set and added.
pub evloop_add_periodic_task-IsEventLoop :
    (loop : EventLoop) (timer_set timer_added : Bool) (timerfd cb : ℕ)
    → IsEventLoop loop
    → loop.periodic_maxsize < 2 ^ 30
    → IsEventLoop (evloop_init loop.epollfd loop.max_events loop.timeout)
      × (Returns (evloop_add_periodic_task timer_set timer_added timerfd cb loop) λ loop'.
          IsEventLoop loop'
          × (loop'.periodic_tasks
              ≡ tasks_after timer_set timer_added
                  (record { timerfd = timerfd; closure = cb })
                  loop.periodic_tasks))
unfolding evloop_add_periodic_task
evloop_add_periodic_task-IsEventLoop loop timer_set timer_added timerfd cb w h =
    let task : Task = record { timerfd = timerfd; closure = cb } in
    let (size, e, lt) = grown-room loop w h in
    let (loop', stored, (kept, tasks)) = store_task-IsEventLoop loop size task w lt in
    (
      init-IsEventLoop loop.epollfd loop.max_events loop.timeout,
      elim (Bool-cases (timer_set && timer_added)) [
        | inl both ↦ (loop', rw (both, e) stored, (kept, rw both tasks))
        | inr failed ↦ (loop, rw failed refl, (w, rw failed refl))
      ],
    )
