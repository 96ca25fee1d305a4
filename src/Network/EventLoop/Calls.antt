-- ===== src/Network/EventLoop/Calls.antt =====
-- The event loop while no timer has run out.
use mqttbroker.Base.{
  ℕ, ◌≤◌, ◌≡◌, refl, ◌≢◌, inl, inr, false, none, some, List, [], ◌∷◌, ◌++◌, map, arith, ok, length,
  take, All, ◌==◌, if◌then◌else◌, Bool-cases,
}
use mqttbroker.Network.EventLoop.{
  EpollData, descriptor, pointer, EpollEvent, Task, Action, shut, called, data_fd, is_down,
  periodic_call, handle_event, handle_events, Waited, interrupted, failed, ready, evloop_wait,
}

-- The event holds no descriptor of a timer.
abbrev pub NoTimer : List Task → EpollEvent → Type 0
NoTimer tasks ev = All (λ task. data_fd ev.epoll_data ≢ task.timerfd) tasks

-- The event of a closure: what an event that is ready holds is an address.
abbrev pub OfClosure : EpollEvent → Type 0
OfClosure ev = (closure : ℕ) × (ev.epoll_data ≡ pointer closure)

abbrev pub address : EpollData → ℕ
address (pointer closure) = closure
address (descriptor fd) = fd

-- What the loop is to do for an event.
abbrev pub action_of : EpollEvent → Action
action_of ev = if is_down ev then shut (data_fd ev.epoll_data) else called (address ev.epoll_data)

NoTimer-rest :
    (task : Task) (tasks : List Task) (events : List EpollEvent)
    → All (NoTimer (task ∷ tasks)) events
    → All (NoTimer tasks) events
NoTimer-rest task tasks [] h = tt
NoTimer-rest task tasks (ev ∷ events) ((ne, here), later) =
    (here, NoTimer-rest task tasks events later)

periodic_call-none :
    (events : List EpollEvent) (tasks : List Task)
    → length tasks ≤ length events
    → All (NoTimer tasks) events
    → periodic_call events tasks ≡ ok none
unfolding periodic_call
periodic_call-none events [] le h = refl
periodic_call-none [] (task ∷ tasks) le h = absurd (omega (arith, le))
periodic_call-none (ev ∷ events) (task ∷ tasks) le ((ne, here), later) =
    let other : (data_fd ev.epoll_data == task.timerfd) ≡ false = ground (arith, ne) in
    rw other
      (periodic_call-none events tasks (omega (arith, le)) (NoTimer-rest task tasks events later))

pub handle_event-own :
    (events : List EpollEvent) (tasks : List Task) (ev : EpollEvent)
    → periodic_call events tasks ≡ ok none
    → OfClosure ev
    → handle_event events tasks ev ≡ ok (action_of ev)
unfolding handle_event
handle_event-own events tasks ev e (closure, c) = elim (Bool-cases (is_down ev)) [
  | inl down ↦ rw down refl
  | inr up ↦ rw (up, e, c) refl
]

handle_events-own :
    (events : List EpollEvent) (tasks : List Task) (evs : List EpollEvent)
    → periodic_call events tasks ≡ ok none
    → All OfClosure evs
    → handle_events events tasks evs ≡ ok (map action_of evs)
unfolding handle_events
handle_events-own events tasks [] e h = refl
handle_events-own events tasks (ev ∷ evs) e (here, later) =
    rw (handle_event-own events tasks ev e here, handle_events-own events tasks evs e later) refl

-- A call of epoll_wait(2) that gives only events of closures, in an array with as many entries as
-- there are tasks or more, none of which reads as a timer.
abbrev pub Serves : List Task → Waited → Type 0
Serves tasks interrupted = Unit
Serves tasks (failed errno) = ⊥
Serves tasks (ready n events) =
    (length tasks ≤ length events) × All (NoTimer tasks) events × All OfClosure (take n events)

abbrev pub actions_of : List Waited → List Action
actions_of [] = []
actions_of (interrupted ∷ waits) = actions_of waits
actions_of (failed errno ∷ waits) = []
actions_of (ready n events ∷ waits) = map action_of (take n events) ++ actions_of waits

-- While no event comes from a timer or holds an address that reads as one, `evloop_wait` handles
-- every event, in order, across interruptions: it shuts the descriptor that is down, and else calls
-- the closure of the event itself. It returns once epoll_wait(2) fails, with its error.
pub evloop_wait-actions_of :
    (tasks : List Task) (waits later : List Waited) (errno : ℕ)
    → All (Serves tasks) waits
    → evloop_wait tasks (waits ++ (failed errno ∷ later)) ≡ ok (actions_of waits, some errno)
unfolding evloop_wait
evloop_wait-actions_of tasks [] later errno h = refl
evloop_wait-actions_of tasks (interrupted ∷ waits) later errno (here, h) =
    evloop_wait-actions_of tasks waits later errno h
evloop_wait-actions_of tasks (failed other ∷ waits) later errno (here, h) = absurd here
evloop_wait-actions_of tasks (ready n events ∷ waits) later errno ((le, timers, own), h) =
    rw
      (
        handle_events-own events tasks (take n events) (periodic_call-none events tasks le timers)
            own,
        evloop_wait-actions_of tasks waits later errno h,
      )
      refl
