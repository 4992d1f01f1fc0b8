-- ===== src/Mutex/Data.antt =====
-- src/mutex.rs: `Mutex` with the data that it guards, and the guards that are out. A guard is out from
-- when the call or the future that makes it returns it until it is dropped; it gives access to the data.
pub mod Front
pub mod Guards
pub mod Tests
use mathlib.Core.Option
use async_priority_lock_rs.Base.{
  ℕ, ◌⊎◌, ◌≡◌, ◌≢◌, refl, sym, ap, ◌∙◌, subst, inl, inr, Bool, true, false, Option, none, some,
  List, [], ◌∷◌, ◌++◌, arith, All, All-mono, All-append_right, head?, if◌then◌else◌, ◌==◌,
  Bool-cases,
}
use async_priority_lock_rs.Priority.{Priority}
use async_priority_lock_rs.Priority.Laws.{IsLawful}
use async_priority_lock_rs.Waiter.{Flags, Poll, ready, pending, lock_flag, evict_flag}
use async_priority_lock_rs.Queue.{PriorityQueue}
use async_priority_lock_rs.Queue.Order.{Entry}
use async_priority_lock_rs.Mutex.{
  MutexWaiter, mutex_priority, try_lock, lock, poll, drop_future, drop_guard,
}
use async_priority_lock_rs.Mutex.Invariant.{Inv, default-Inv, try_lock_lem, lock_lem}
use async_priority_lock_rs.Mutex.Release.{drop_guard-holder, drop_guard-waiter, poll_lem}
use async_priority_lock_rs.Mutex.Run.{Queued, Step, Step-Inv}

abbrev pub Out : ℕ → List ℕ → Type 0
Out h [] = ⊥
Out h (g ∷ gs) = (g ≡ h) ⊎ Out h gs

abbrev pub without : ℕ → List ℕ → List ℕ
without h [] = []
without h (g ∷ gs) = if g == h then without h gs else g ∷ without h gs

module _ {P : Type 0} (p : Priority P) (Q : PriorityQueue (mutex_priority p)) (T : Type 0) where
  -- `Mutex`; `P` and `Q` are its parameters here, too.
  pub record Mutex : Type 0 where
    pub queue : Q.Queue
    pub content : T

  pub new : T → Mutex
  new val = record { queue = Q.default; content = val }

  -- `Default`, from that of `T`.
  pub default : T → Mutex
  default val = record { queue = Q.default; content = val }

  -- `Deref` and a write through `DerefMut`.
  pub deref : Mutex → T
  deref mutex = mutex.content

  pub deref_mut : (T → T) → Mutex → Mutex
  deref_mut f mutex = record mutex { content = f mutex.content }

  -- `lock_from` and `lock_default`; the conversion and the default are the caller's.
  pub lock_from : {I : Type 0} → (I → P) → Bool → Mutex → I → Option (Q.Queue × ℕ × Bool)
  unfolding lock
  lock_from into evicts mutex priority = lock p Q evicts mutex.queue (into priority)

  pub lock_default : P → Bool → Mutex → Option (Q.Queue × ℕ × Bool)
  unfolding lock
  lock_default standard evicts mutex = lock p Q evicts mutex.queue standard

  -- The mutex and the guards that are out.
  pub record World : Type 0 where
    pub mutex : Mutex
    pub guards : List ℕ

  abbrev pub at : World → Q.Queue → List ℕ → World
  at w q guards = record { mutex = record w.mutex { queue = q }; guards = guards }

  pub data Move (evicts : Bool) (w : World) : World → Type 0 where
    tries :
        (priority : P) (q : Q.Queue) (h : ℕ)
        → try_lock p Q w.mutex.queue priority ≡ some (q, some h)
        → Move evicts w (at w q (h ∷ w.guards))
    locks :
        (priority : P) (q : Q.Queue) (h : ℕ)
        → lock p Q evicts w.mutex.queue priority ≡ some (q, h, true)
        → Move evicts w (at w q (h ∷ w.guards))
    -- `lock` awaits.
    waits :
        (priority : P) (q : Q.Queue) (h : ℕ)
        → lock p Q evicts w.mutex.queue priority ≡ some (q, h, false)
        → Move evicts w (at w q w.guards)
    -- The future of `lock` is polled, and returns its guard.
    gets :
        (h k : ℕ) (q : Q.Queue) (f : Flags)
        → Queued p Q w.mutex.queue h
        → poll p Q lock_flag w.mutex.queue h k ≡ some (q, ready f)
        → Move evicts w (at w q (h ∷ w.guards))
    -- Any other poll, also that of `evicted`.
    polls :
        (target : Flags) (h k : ℕ) (q : Q.Queue) (r : Poll)
        → Queued p Q w.mutex.queue h
        → poll p Q target w.mutex.queue h k ≡ some (q, r)
        → Move evicts w (at w q w.guards)
    drops_future :
        (h : ℕ) (q : Q.Queue)
        → Queued p Q w.mutex.queue h
        → drop_future p Q w.mutex.queue h ≡ some q
        → Move evicts w (at w q w.guards)
    -- A guard, or that of a `lock` that is cancelled.
    drops_guard :
        (h : ℕ) (q : Q.Queue)
        → Queued p Q w.mutex.queue h
        → drop_guard p Q w.mutex.queue h ≡ some q
        → Move evicts w (at w q (without h w.guards))
    writes :
        (h : ℕ) (f : T → T)
        → Out h w.guards
        → Move evicts w (record w { mutex = deref_mut f w.mutex })

  -- What can come of a new mutex.
  pub data History (evicts : Bool) (val : T) : World → Type 0 where
    created : History evicts val (record { mutex = new val; guards = [] })
    moved : {w w' : World} → History evicts val w → Move evicts w w' → History evicts val w'
