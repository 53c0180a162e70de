-- ===== src/Server/Lease/Lost.antt =====
-- That a lease that is lost stays lost.
use blast_radius.Base.{
  ℕ, ◌≡◌, refl, Bool, true, false, Option, none, some, List, [], ◌∷◌, All, if◌then◌else◌, arith,
}
use blast_radius.Server.Lease.{
  ServiceLease, Probe, owner, connection_closed, probe_failed, of_database, of_file,
  refused_database, refused_file, Answer, says, raises_lost, healthy, fenced, by_health, fenced_by,
  fence, Call, asks_healthy, asks_fence, asks_acquire, asks_release, said, answer, answers,
}

-- A call that asks for the lease is refused.
abbrev pub Refused : Call × Answer → Type 0
Refused (asks_healthy probe, a) = a ≡ says false
Refused (asks_fence probe, a) = a ≡ raises_lost
Refused (asks_acquire lock, a) = Unit {0}
Refused (asks_release unlocked, a) = Unit {0}

-- The lease was found lost, or it was given up.
abbrev pub IsLoss : Call × Answer → Type 0
IsLoss (asks_healthy probe, a) = a ≡ says false
IsLoss (asks_fence probe, a) = a ≡ raises_lost
IsLoss (asks_acquire lock, a) = ⊥
IsLoss (asks_release unlocked, a) = Unit {0}

answer-lost :
    (call : Call) (s : ServiceLease)
    → s.lost ≡ true
    → Refused (call, (answer call s).0) × ((answer call s).1.lost ≡ true)
unfolding answer
answer-lost (asks_healthy probe) s h = rw h (refl, refl)
answer-lost (asks_fence probe) s h = rw h (refl, refl)
answer-lost (asks_acquire (of_database pid)) s h = (tt, h)
answer-lost (asks_acquire of_file) s h = (tt, h)
answer-lost (asks_acquire refused_database) s h = (tt, h)
answer-lost (asks_acquire refused_file) s h = (tt, h)
answer-lost (asks_release unlocked) s h = (tt, refl)

answers-lost :
    (calls : List Call) (s : ServiceLease) → s.lost ≡ true → All Refused (answers calls s)
unfolding answers
answers-lost [] s h = tt
answers-lost (call ∷ calls) s h =
    let (refused, lost) = answer-lost call s h in
    (refused, answers-lost calls (answer call s).1 lost)

healthy-loss :
    (probe : Probe) (s : ServiceLease)
    → (healthy probe s).0 ≡ false
    → (healthy probe s).1.lost ≡ true
unfolding healthy
healthy-loss probe s h = ground arith

fenced-loss :
    (probe : Probe) (s : ServiceLease)
    → (fenced probe s).0 ≡ raises_lost
    → (fenced probe s).1.lost ≡ true
fenced-loss (owner true) s h = cc
fenced-loss (owner false) s h = refl
fenced-loss connection_closed s h = cc
fenced-loss probe_failed s h = cc

by_health-loss :
    (r : Bool × ServiceLease)
    → (r.0 ≡ false → r.1.lost ≡ true)
    → (by_health r).0 ≡ raises_lost
    → (by_health r).1.lost ≡ true
by_health-loss (true, s) k h = cc
by_health-loss (false, s) k h = k refl

fenced_by-loss :
    (pid : Option ℕ) (probe : Probe) (s : ServiceLease)
    → (fenced_by pid probe s).0 ≡ raises_lost
    → (fenced_by pid probe s).1.lost ≡ true
fenced_by-loss (some pid) probe s h = fenced-loss probe s h
fenced_by-loss none probe s h = by_health-loss (healthy probe s) (healthy-loss probe s) h

said-loss :
    (r : Bool × ServiceLease)
    → (r.0 ≡ false → r.1.lost ≡ true)
    → (said r).0 ≡ says false
    → (said r).1.lost ≡ true
said-loss (true, s) k h = cc
said-loss (false, s) k h = k refl

unless_lost :
    (b : Bool) (s : ServiceLease) (r : Answer × ServiceLease)
    → s.lost ≡ b
    → (r.0 ≡ raises_lost → r.1.lost ≡ true)
    → (if b then (raises_lost, s) else r).0 ≡ raises_lost
    → (if b then (raises_lost, s) else r).1.lost ≡ true
unless_lost true s r e k h = e
unless_lost false s r e k h = k h

fence-loss :
    (probe : Probe) (s : ServiceLease)
    → (fence probe s).0 ≡ raises_lost
    → (fence probe s).1.lost ≡ true
unfolding fence
fence-loss probe s h =
    unless_lost s.lost s (fenced_by s.pid probe s) refl (fenced_by-loss s.pid probe s) h

answer-IsLoss :
    (call : Call) (s : ServiceLease)
    → IsLoss (call, (answer call s).0)
    → (answer call s).1.lost ≡ true
unfolding answer
answer-IsLoss (asks_healthy probe) s h = said-loss (healthy probe s) (healthy-loss probe s) h
answer-IsLoss (asks_fence probe) s h = fence-loss probe s h
answer-IsLoss (asks_acquire lock) s h = absurd h
answer-IsLoss (asks_release unlocked) s h = refl

-- Once `healthy` has answered no, `fence` has raised `LeaseLost`, or the lease was released, every later
-- `healthy` answers no and every later `fence` raises `LeaseLost`, whatever the database answers and
-- also where the lock is acquired again.
pub lost_forever :
    (call : Call) (calls : List Call) (s : ServiceLease)
    → IsLoss (call, (answer call s).0)
    → All Refused (answers calls (answer call s).1)
lost_forever call calls s h = answers-lost calls (answer call s).1 (answer-IsLoss call s h)
