-- ===== src/Manager/Reachable.antt =====
-- The manager as a state machine: operations in any order, with one stop at a time that may wait.
use second_eye.Prelude.{ℕ, ◌≡◌, refl, true, Option, none, some, arith}
use second_eye.Prelude.Text.{Text}
use second_eye.Har.{HarEntry}
use second_eye.Manager.{
  Env, Error, Result, ok, err, ActiveCapture, CaptureBuffer, CaptureManager, start_capture,
  record_entry,
}
use second_eye.Manager.Stop.{PendingStop, begin_with, begin_stop, finish_stop}
use second_eye.Manager.Waiting.{active_while_stopping}

-- the manager, and the stop that waits for its files, if one does
pub record Running : Type 0 where
  pub manager : CaptureManager
  pub waiting : Option PendingStop

abbrev pub running : CaptureManager → Option PendingStop → Running
running m w = record { manager = m; waiting = w }

-- an operation of the manager, or one half of a stop
pub data Step (env : Env) : Running → Running → Type 0 where
  starts :
      (now : ℕ) (name : Text) (m : CaptureManager) (w : Option PendingStop)
      → Step env (running m w) (running (start_capture env now name m).1 w)
  records :
      (e : HarEntry) (m : CaptureManager) (w : Option PendingStop)
      → Step env (running m w) (running (record_entry env e m).1 w)
  begins :
      (now : ℕ) (m m1 : CaptureManager) (p : PendingStop)
      → begin_stop env now m ≡ (ok p, m1)
      → Step env (running m none) (running m1 (some p))
  fails :
      (now : ℕ) (m m1 : CaptureManager) (e : Error) (w : Option PendingStop)
      → begin_stop env now m ≡ (err e, m1)
      → Step env (running m w) (running m1 w)
  finishes :
      (m : CaptureManager) (p : PendingStop)
      → Step env (running m (some p)) (running (finish_stop env p m).1 none)

pub data Steps (env : Env) : Running → Running → Type 0 where
  stay : (r : Running) → Steps env r r
  next : (r s t : Running) → Steps env r s → Step env s t → Steps env r t

-- a capture is active exactly while there is a buffer
abbrev pub BothOrNone : Option ActiveCapture → Option CaptureBuffer → Type 0
BothOrNone none none = Unit
BothOrNone (some a) (some b) = Unit
BothOrNone _ _ = ⊥

-- while a stop waits, its capture is the active one and the buffer is closed
abbrev pub Holds : Option PendingStop → CaptureManager → Type 0
Holds none m = Unit
Holds (some p) m =
    (m.active ≡ some p.capture) × (b : CaptureBuffer) × (m.buffer ≡ some b) × (b.closed ≡ true)

pub record IsConsistent (r : Running) : Type 0 where
  pub both : BothOrNone r.manager.active r.manager.buffer
  pub holds : Holds r.waiting r.manager

module _ (env : Env) where
  BothOrNone-begin_stop :
      (now : ℕ) (m m1 : CaptureManager) (o : Result PendingStop)
      → begin_stop env now m ≡ (o, m1)
      → BothOrNone m.active m.buffer
      → BothOrNone m1.active m1.buffer
  unfolding begin_stop begin_with
  BothOrNone-begin_stop now m m1 o e h = ground arith

  Holds-begin_stop :
      (now : ℕ) (m m1 : CaptureManager) (o : Result PendingStop) (p : PendingStop)
      → begin_stop env now m ≡ (o, m1)
      → Holds (some p) m
      → Holds (some p) m1
  unfolding begin_stop begin_with
  Holds-begin_stop now m m1 o p e (active, b, buffer, closed) =
      (ground arith, record b { closed = true }, ground arith, refl)

  Step-IsConsistent : (r s : Running) → Step env r s → IsConsistent r → IsConsistent s
  unfolding start_capture record_entry finish_stop
  Step-IsConsistent r s (starts now name m none) h = record {
    both = ground (arith, h.both);
    holds = tt;
  }
  Step-IsConsistent r s (starts now name m (some p)) h = record {
    both = ground (arith, h.both, h.holds);
    holds = ground (arith, h.holds);
  }
  Step-IsConsistent r s (records e m none) h = record { both = ground (arith, h.both); holds = tt }
  Step-IsConsistent r s (records e m (some p)) h = record {
    both = ground (arith, h.both, h.holds);
    holds = ground (arith, h.holds);
  }
  Step-IsConsistent r s (begins now m m1 p e) h = record {
    both = BothOrNone-begin_stop now m m1 (ok p) e h.both;
    holds = active_while_stopping env now m m1 p e;
  }
  Step-IsConsistent r s (fails now m m1 e none q) h = record {
    both = BothOrNone-begin_stop now m m1 (err e) q h.both;
    holds = tt;
  }
  Step-IsConsistent r s (fails now m m1 e (some p) q) h = record {
    both = BothOrNone-begin_stop now m m1 (err e) q h.both;
    holds = Holds-begin_stop now m m1 (err e) p q h.holds;
  }
  Step-IsConsistent r s (finishes m p) h = record { both = tt; holds = tt }

  -- From a consistent state, such as an idle manager with no stop that waits, every sequence of steps
  -- with at most one stop at a time ends in one: a buffer is there exactly while a capture is active,
  -- and while a stop waits its capture is still the active one, with its buffer closed.
  pub Steps-IsConsistent : (r s : Running) → Steps env r s → IsConsistent r → IsConsistent s
  Steps-IsConsistent r s (stay _) h = h
  Steps-IsConsistent r s (next _ q _ before step) h =
      Step-IsConsistent q s step (Steps-IsConsistent r q before h)
