-- ===== src/Searxng/Admission/Threads.antt =====
-- The threads that make paid attempts, and their interleavings: searxng/engines/x402exa.py, `process`,
-- as far as it calls the admission.
pub mod Invariant
pub mod Reserving
pub mod Acts
pub mod Safety
use private_onyx_app.Common.{
  suc, err, true, false, none, [], ◌∷◌, set, ok, some, replicate, get_elem?, Result, Option, List,
  Bool, ℕ, ◌+◌,
}
use private_onyx_app.Searxng.Admission.{
  record_start, disown, own, release, new_admission, reserve, Admission,
}

-- Where a thread of `process` is: `holding` a reservation, `owning` the attempt, which it has started or
-- not, or `finishing`, behind the attempt and before the release of its token.
pub data Thread : Type 0 where
  outside : Thread
  holding : ℕ → Thread
  owning : ℕ → Bool → Thread
  finishing : ℕ → Thread

-- What a thread does next.
pub data Act : Type 0 where
  ask : Bool → Act
  give_back enter start leave : Act

-- The admission, the threads, the clock, how many tokens were drawn, and the starts so far, the latest
-- first. The tokens that `uuid4` draws are distinct, and are numbered as they are drawn.
pub record System : Type 0 where
  pub admission : Admission
  pub threads : List Thread
  pub clock : ℕ
  pub issued : ℕ
  pub starts : List ℕ

unfoldable pub reserved : ℕ → ℕ → Option ℕ × Admission → Admission × Thread × ℕ
reserved now issued (none, s) = (s, outside, issued)
reserved now issued (some t, s) = (s, holding t, suc issued)

unfoldable pub owned : ℕ → Admission → Result Admission → Admission × Thread
owned t s (ok s') = (s', owning t false)
owned t s (err e) = (s, finishing t)

-- An attempt that may not start leaves its context.
unfoldable pub started : ℕ → ℕ → Admission → List ℕ → Result Admission → Admission × Thread × List ℕ
started now t s starts (ok s') = (s', owning t true, now ∷ starts)
started now t s starts (err e) = (disown s, finishing t, starts)

-- The system after a thread at position `i` acts: it starts its attempt once at most. An act that the
-- thread is not at changes nothing.
unfoldable pub act : Act → System → ℕ → Thread → System
unfolding reserved owned started reserve release own disown record_start
act (ask available) w i outside =
    let (s, t, n) = reserved w.clock w.issued (reserve available w.clock w.issued w.admission) in
    record w { admission = s; threads = set w.threads i t; issued = n }
act give_back w i (holding t) = record w {
  admission = (release (some t) w.admission).0;
  threads = set w.threads i outside;
}
act give_back w i (finishing t) = record w {
  admission = (release (some t) w.admission).0;
  threads = set w.threads i outside;
}
act enter w i (holding t) =
    let (s, u) = owned t w.admission (own (some t) w.admission) in
    record w { admission = s; threads = set w.threads i u }
act start w i (owning t false) =
    let (s, u, starts) =
      started w.clock t w.admission w.starts (record_start w.clock w.admission) in
    record w { admission = s; threads = set w.threads i u; starts = starts }
act leave w i (owning t b) = record w {
  admission = disown w.admission;
  threads = set w.threads i (finishing t);
}
act _ w i t = w

unfoldable pub turn : Act → System → ℕ → Option Thread → System
unfolding act
turn a w i none = w
turn a w i (some t) = act a w i t

-- Some time passes, and then the thread at a position acts.
pub record Choice : Type 0 where
  pub elapsed : ℕ
  pub position : ℕ
  pub does : Act

unfoldable pub step : Choice → System → System
unfolding turn
step c w =
    turn c.does (record w { clock = w.clock + c.elapsed }) c.position
      (get_elem? w.threads c.position)

unfoldable pub run : List Choice → System → System
unfolding step
run [] w = w
run (c ∷ schedule) w = run schedule (step c w)

unfoldable pub new_system : ℕ → ℕ → System
unfolding new_admission replicate
new_system now count = record {
  admission = new_admission;
  threads = replicate count outside;
  clock = now;
  issued = 0;
  starts = [];
}
