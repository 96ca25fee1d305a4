-- ===== src/Network/EventLoop/Timer.antt =====
-- The event loop with one periodic task, as sol has it, once the timer has run out.
use mqttbroker.Base.{
  ℕ, ◌≡◌, refl, inl, inr, true, false, Option, none, some, List, [], ◌∷◌, ◌++◌, map, append-nil,
  arith, dangling, Run, ok, fault, length, take_all, All, ◌==◌, if◌then◌else◌, Bool-cases,
}
use mqttbroker.Network.EventLoop.{
  descriptor, EpollEvent, Task, Action, shut, called, data_fd, is_down, periodic_call, handle_event,
  handle_events, ready, evloop_wait,
}
use mqttbroker.Network.EventLoop.Calls.{NoTimer, OfClosure, handle_event-own}

-- What is done for an event in place of its own action.
abbrev pub taken_over : Task → EpollEvent → Action
taken_over task ev = if is_down ev then shut (data_fd ev.epoll_data) else called task.closure

handle_event-taken_over :
    (events : List EpollEvent) (task : Task) (ev : EpollEvent)
    → periodic_call events (task ∷ []) ≡ ok (some task.closure)
    → handle_event events (task ∷ []) ev ≡ ok (taken_over task ev)
unfolding handle_event
handle_event-taken_over events task ev e = elim (Bool-cases (is_down ev)) [
  | inl down ↦ rw down refl
  | inr up ↦ rw (up, e) refl
]

handle_events-taken_over :
    (events : List EpollEvent) (task : Task) (evs : List EpollEvent)
    → periodic_call events (task ∷ []) ≡ ok (some task.closure)
    → handle_events events (task ∷ []) evs ≡ ok (map (taken_over task) evs)
unfolding handle_events
handle_events-taken_over events task [] e = refl
handle_events-taken_over events task (ev ∷ evs) e =
    rw (handle_event-taken_over events task ev e, handle_events-taken_over events task evs e) refl

-- The event of a timer holds no address.
handle_event-dangling :
    (events : List EpollEvent) (tasks : List Task) (timer : EpollEvent) (fd : ℕ)
    → periodic_call events tasks ≡ ok none
    → timer.epoll_data ≡ descriptor fd
    → is_down timer ≡ false
    → handle_event events tasks timer ≡ fault dangling
unfolding handle_event
handle_event-dangling events tasks timer fd e d up = rw (up, e, d) refl

handle_events-dangling :
    (events : List EpollEvent) (tasks : List Task) (timer : EpollEvent) (fd : ℕ)
    (before later : List EpollEvent)
    → periodic_call events tasks ≡ ok none
    → timer.epoll_data ≡ descriptor fd
    → is_down timer ≡ false
    → All OfClosure before
    → handle_events events tasks (before ++ (timer ∷ later)) ≡ fault dangling
unfolding handle_events
handle_events-dangling events tasks timer fd [] later e d up h =
    rw (handle_event-dangling events tasks timer fd e d up) refl
handle_events-dangling events tasks timer fd (ev ∷ before) later e d up (here, h) =
    rw
      (
        handle_event-own events tasks ev e here,
        handle_events-dangling events tasks timer fd before later e d up h,
      )
      refl

-- What a round comes to, by the events in front of that of the timer.
abbrev pub timer_round :
    Task → EpollEvent → List EpollEvent → List EpollEvent → Run (List Action × Option ℕ)
timer_round task timer later [] = ok (map (taken_over task) (timer ∷ later), none)
timer_round task timer later (ev ∷ before) = fault dangling

-- With one periodic task, whose timer has run out, `evloop_wait` calls it for every event that is
-- ready, and none of their closures, if the event of the timer is the first of the round; if it
-- stands behind events of closures that do not read as the timer, it is taken for a closure, which
-- is undefined.
pub evloop_wait-timer_round :
    (task : Task) (timer : EpollEvent) (before later : List EpollEvent)
    → timer.epoll_data ≡ descriptor task.timerfd
    → is_down timer ≡ false
    → All OfClosure before
    → All (NoTimer (task ∷ [])) before
    → evloop_wait
        (task ∷ [])
        (ready (length (before ++ (timer ∷ later))) (before ++ (timer ∷ later)) ∷ [])
      ≡ timer_round task timer later before
unfolding evloop_wait
evloop_wait-timer_round task timer [] later d up own apart =
    let events = timer ∷ later in
    let same : (data_fd timer.epoll_data == task.timerfd) ≡ true = rw d (ground arith) in
    let found : periodic_call events (task ∷ []) ≡ ok (some task.closure) =
      unfold periodic_call in rw same refl in
    rw
      (
        take_all events (length events) (omega arith),
        handle_events-taken_over events task events found,
        append-nil (map (taken_over task) events),
      )
      refl
evloop_wait-timer_round task timer (ev ∷ before) later d up own ((ne, tt), apart) =
    let events = (ev ∷ before) ++ (timer ∷ later) in
    let other : (data_fd ev.epoll_data == task.timerfd) ≡ false = ground (arith, ne) in
    let none_found : periodic_call events (task ∷ []) ≡ ok none =
      unfold periodic_call in rw other refl in
    rw
      (
        take_all events (length events) (omega arith),
        handle_events-dangling events (task ∷ []) timer task.timerfd (ev ∷ before) later none_found
            d up own,
      )
      refl
