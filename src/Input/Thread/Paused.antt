-- ===== src/Input/Thread/Paused.antt =====
-- A pause comes to its end.
use lua_node.Base.{
  ◌≡◌, ◌+◌, refl, true, false, Option, none, some, List, [], ◌∷◌, ◌==◌, ◌&&◌, if◌then◌else◌, ap,
  ◌∙◌, if_cases,
}
use lua_node.Input.Thread.{
  InputThread, Phase, checking, reading, ended, Answer, got, failed, pauses, joins, thread_steps,
  thread_turn, thread_turns, start, pause, joined, run_step, answered,
}

-- A stream that is read.
pub record IsReading (p : Phase) (s : InputThread) : Type 0 where
  pub has_thread : s.thread ≡ some p
  pub is_free : s.joining ≡ false

-- `Pause` waits for the thread.
record IsPausing (strays : List Phase) (p : Phase) (s : InputThread) : Type 0 where
  has_thread : s.thread ≡ some p
  is_joining : s.joining ≡ true
  is_stopped : s.run ≡ false
  has_strays : s.strays ≡ strays

abbrev following : Answer → Phase → Phase
following (got count is_focus) reading = checking
following (failed invalid_handle) reading = ended
following answer checking = ended
following answer ended = ended

following_twice : (a b : Answer) (p : Phase) → following b (following a p) ≡ ended
following_twice (got count is_focus) b reading = refl
following_twice (failed invalid_handle) b reading = refl
following_twice a b checking = refl
following_twice a b ended = refl

answered-IsPausing :
    (strays : List Phase) (p : Phase) (a : Answer) (s : InputThread)
    → IsPausing strays p s
    → IsPausing strays p (answered a s).1
unfolding answered
answered-IsPausing strays p (got count is_focus) s h =
    if_cases (IsPausing strays p) (count == 1 && is_focus) _ _ (λ _. h)
      (λ _.
        if_cases (IsPausing strays p) (count == 0) _ _ (λ _. h)
          (λ _. record {
            has_thread = h.has_thread;
            is_joining = h.is_joining;
            is_stopped = h.is_stopped;
            has_strays = h.has_strays;
          }))
answered-IsPausing strays p (failed invalid_handle) s h =
    if_cases (IsPausing strays p) invalid_handle _ _
      (λ _. record {
        has_thread = h.has_thread;
        is_joining = h.is_joining;
        is_stopped = h.is_stopped;
        has_strays = h.has_strays;
      })
      (λ _. h)

move-IsPausing :
    (strays : List Phase) (p q : Phase) (o : Option Phase) (s : InputThread)
    → IsPausing strays p s
    → o ≡ some q
    → IsPausing strays q (record s { thread = o })
move-IsPausing strays p q o s h e = record {
  has_thread = e;
  is_joining = h.is_joining;
  is_stopped = h.is_stopped;
  has_strays = h.has_strays;
}

run_step-IsPausing :
    (strays : List Phase) (p : Phase) (a : Answer) (s : InputThread)
    → IsPausing strays p s
    → let r = run_step a p s in IsPausing strays (following a p) (record r.1 { thread = some r.0 })
unfolding run_step answered
run_step-IsPausing strays reading (got count is_focus) s h =
    let a = got count is_focus in
    move-IsPausing strays reading checking _ _ (answered-IsPausing strays reading a s h) refl
run_step-IsPausing strays reading (failed invalid_handle) s h =
    let a = failed invalid_handle in
    move-IsPausing strays reading ended _ _ (answered-IsPausing strays reading a s h) refl
run_step-IsPausing strays checking a s h =
    move-IsPausing strays checking ended _ s h (rw h.is_stopped refl)
run_step-IsPausing strays ended a s h = move-IsPausing strays ended ended _ s h refl

thread_steps-IsPausing :
    (strays : List Phase) (p : Phase) (a : Answer) (s : InputThread)
    → IsPausing strays p s
    → (t : InputThread) × (thread_turn (thread_steps a) s ≡ some t)
      × IsPausing strays (following a p) t
unfolding thread_turn
thread_steps-IsPausing strays p a s h =
    let r = run_step a p s in
    (record r.1 { thread = some r.0 }, rw h.has_thread refl, run_step-IsPausing strays p a s h)

pauses-IsPausing :
    (p : Phase) (s : InputThread)
    → IsReading p s
    → (t : InputThread) × (thread_turn pauses s ≡ some t) × IsPausing s.strays p t
unfolding thread_turn pause
pauses-IsPausing p s h = (
  record s { run = false; wakeups = s.wakeups + 1; joining = true },
  ap (λ b. if b then some s else pause s.thread s) h.is_free ∙ ap (λ o. pause o s) h.has_thread,
  record { has_thread = h.has_thread; is_joining = refl; is_stopped = refl; has_strays = refl },
)

joins-IsPausing :
    (strays : List Phase) (s : InputThread)
    → IsPausing strays ended s
    → thread_turn joins s ≡ some (record s { joining = false; thread = none; work = false })
unfolding thread_turn joined
joins-IsPausing strays s h = rw (h.has_thread, h.is_joining) refl

-- The call of Pause on a stream with a reading thread ends, wherever the thread is, after two steps of the
-- thread, whatever the console answers to them: then the stream holds no thread and no work of the event
-- loop, and the threads that were let go before are as they were; a Read after it starts a thread again.
pub pause-joined :
    (p : Phase) (a b : Answer) (s : InputThread)
    → IsReading p s
    → (t : InputThread) × (thread_turns (pauses ∷ thread_steps a ∷ thread_steps b ∷ joins ∷ []) s
        ≡ some t)
      × (t.run ≡ false)
      × (t.thread ≡ none)
      × (t.work ≡ false)
      × (t.joining ≡ false)
      × (t.strays ≡ s.strays)
      × ((start t).thread ≡ some checking)
      × ((start t).run ≡ true)
      × ((start t).work ≡ true)
unfolding thread_turns start
pause-joined p a b s r =
    let (s1, e1, h1) = pauses-IsPausing p s r in
    let (s2, e2, h2) = thread_steps-IsPausing s.strays p a s1 h1 in
    let (s3, e3, h3) = thread_steps-IsPausing s.strays (following a p) b s2 h2 in
    let h4 : IsPausing s.strays ended s3 = rw (← following_twice a b p) h3 in
    (
      record s3 { joining = false; thread = none; work = false },
      rw (e1, e2, e3, joins-IsPausing s.strays s3 h4) refl,
      h4.is_stopped,
      refl,
      refl,
      refl,
      h4.has_strays,
      refl,
      refl,
      refl,
    )
