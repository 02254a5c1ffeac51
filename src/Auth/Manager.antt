-- ===== src/Auth/Manager.antt =====
-- The refresh manager of web/src/connect.ts (`createTokenRefreshManager`): callers that come while
-- a refresh is on its way share it. Promises are numbered in the order in which they are made; the
-- calls and the settling of promises interleave in any order.
mod Samples
use memos_note.Common.{
  is_some, ℕ, suc, ◌≤◌, ◌≡◌, refl, Bool, true, false, Option, none, some, arith,
}

pub record Manager : Type 0 where
  pub is_refreshing : Bool
  pub refresh_promise : Option ℕ
  pub started : ℕ

pub data Event : Type 0 where
  call : Event
  settle : ℕ → Event

abbrev pub idle : Manager
idle = record { is_refreshing = false; refresh_promise = none; started = 0 }

start : Manager → Manager × Option ℕ
start m = (
  record { is_refreshing = true; refresh_promise = some m.started; started = suc m.started },
  some m.started,
)

-- `refresh(refreshFn)`: the manager afterwards, and the promise that the caller waits on.
share : Bool → Option ℕ → Manager → Manager × Option ℕ
unfolding start
share true (some p) m = (m, some p)
share is_refreshing promise m = start m

-- `finally` runs once, when the promise that `refreshFn` returned is settled.
unfoldable pub step : Manager → Event → Manager × Option ℕ
unfolding share
step m call = share m.is_refreshing m.refresh_promise m
step m (settle p) = (record m { is_refreshing = false; refresh_promise = none }, none)

-- What is on its way, by an account of the events alone: a promise is made by a call when none is
-- on its way, and goes when it is settled.
pub record History : Type 0 where
  pub pending : Option ℕ
  pub made : ℕ

abbrev pub first_history : History
first_history = record { pending = none; made = 0 }

abbrev pub extend_call : Option ℕ → History → History
extend_call none h = record { pending = some h.made; made = suc h.made }
extend_call (some p) h = h

abbrev pub extend : History → Event → History
extend h call = extend_call h.pending h
extend h (settle p) = record h { pending = none }

-- A promise is settled only while it is on its way.
pub data Runs : Manager → History → Type 0 where
  begin : Runs idle first_history
  calls : {m : Manager} {h : History} → Runs m h → Runs (step m call).0 (extend h call)
  settles :
      {m : Manager} {h : History} (p : ℕ)
      → Runs m h
      → h.pending ≡ some p
      → Runs (step m (settle p)).0 (extend h (settle p))

pub record Agrees (m : Manager) (h : History) : Type 0 where
  pub promise : m.refresh_promise ≡ h.pending
  pub flag : m.is_refreshing ≡ is_some h.pending
  pub count : m.started ≡ h.made

step-call-Agrees : (m : Manager) (h : History) → Agrees m h → Agrees (step m call).0 (extend h call)
unfolding step
step-call-Agrees m h a = ground arith

step-settle-Agrees :
    (m : Manager) (h : History) (p : ℕ)
    → Agrees m h
    → Agrees (step m (settle p)).0 (extend h (settle p))
unfolding step
step-settle-Agrees m h p a = ground arith

-- However calls and answers interleave, the manager holds the promise that is on its way, and its
-- flag is set exactly while there is one; and it has started as many refreshes as there were calls
-- that found none on its way.
pub Runs-Agrees : {m : Manager} {h : History} → Runs m h → Agrees m h
Runs-Agrees begin = record { promise = refl; flag = refl; count = refl }
Runs-Agrees (calls {m} {h} r) = step-call-Agrees m h (Runs-Agrees r)
Runs-Agrees (settles {m} {h} p r e) = step-settle-Agrees m h p (Runs-Agrees r)

-- Two calls with no answer between them wait on one promise and start one refresh at most.
pub calls_share :
    {m : Manager} {h : History}
    → Runs m h
    → let (m1, first) = step m call in
      let (m2, second) = step m1 call in
      (first ≡ second) × (m2 ≡ m1) × (m1.started ≤ suc m.started) × (is_some first ≡ true)
unfolding step
calls_share {m} {h} r = ground (arith, Runs-Agrees r)
