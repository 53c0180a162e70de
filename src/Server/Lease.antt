-- ===== src/Server/Lease.antt =====
-- blastradius/server/lease.py: the lease of the service. What the database and the file lock answer is
-- given with each call; the log lines are left out.
pub mod Lost
use blast_radius.Base.{ℕ, Bool, true, false, not, Option, none, some, List, [], ◌∷◌, if◌then◌else◌}

-- `ServiceLease`: whether it has a connection, whether its file is there and not closed, its process id
-- and whether it is lost.
pub record ServiceLease : Type 0 where
  pub connected : Bool
  pub file_open : Bool
  pub pid : Option ℕ
  pub lost : Bool

-- The answer to the query `OWNER`: whether the lock is held, or an error; the connection may be closed or
-- invalidated before it is asked.
pub data Probe : Type 0 where
  owner : Bool → Probe
  connection_closed probe_failed : Probe

abbrev pub holds : Probe → Bool
holds (owner b) = b
holds connection_closed = false
holds probe_failed = false

-- How `acquire` finds the lock: of the database, with the id of its process, or of the file. An error
-- leaves the connection or the file closed.
pub data Lock : Type 0 where
  of_database : ℕ → Lock
  of_file refused_database refused_file : Lock

-- How a call ends: with a truth value, with nothing, with `LeaseLost`, or with another error.
pub data Answer : Type 0 where
  says : Bool → Answer
  returns raises_lost raises_error : Answer

abbrev pub lose : ServiceLease → ServiceLease
lose s = record s { lost = true }

-- `healthy`; a connection that is closed is still a connection.
unfoldable pub healthy : Probe → ServiceLease → Bool × ServiceLease
healthy probe s =
    if s.lost
    then (false, s)
    else if s.connected
    then (if holds probe then (true, s) else (false, lose s))
    else if s.file_open
    then (true, s)
    else (false, lose s)

abbrev pub fenced : Probe → ServiceLease → Answer × ServiceLease
fenced (owner true) s = (returns, s)
fenced (owner false) s = (raises_lost, lose s)
fenced connection_closed s = (raises_error, s)
fenced probe_failed s = (raises_error, s)

abbrev pub by_health : Bool × ServiceLease → Answer × ServiceLease
by_health (ok, s) = if ok then (returns, s) else (raises_lost, s)

abbrev pub fenced_by : Option ℕ → Probe → ServiceLease → Answer × ServiceLease
fenced_by (some pid) probe s = fenced probe s
fenced_by none probe s = by_health (healthy probe s)

-- `fence`, on the connection of the session
unfoldable pub fence : Probe → ServiceLease → Answer × ServiceLease
unfolding healthy
fence probe s = if s.lost then (raises_lost, s) else fenced_by s.pid probe s

-- `acquire`
unfoldable pub acquire : Lock → ServiceLease → Answer × ServiceLease
acquire (of_database pid) s = (returns, record s { connected = true; pid = some pid })
acquire of_file s = (returns, record s { file_open = true })
acquire refused_database s = (raises_error, record s { connected = true })
acquire refused_file s = (raises_error, record s { file_open = false })

-- `release`, where `unlocked` is whether the connection is open and the database gives up the lock.
unfoldable pub release : Bool → ServiceLease → Answer × ServiceLease
release unlocked s = (
  says (if s.file_open then true else if s.connected then unlocked else false),
  record s { lost = true; connected = false; file_open = false },
)

pub data Call : Type 0 where
  asks_healthy asks_fence : Probe → Call
  asks_acquire : Lock → Call
  asks_release : Bool → Call

abbrev pub said : Bool × ServiceLease → Answer × ServiceLease
said (b, s) = (says b, s)

unfoldable pub answer : Call → ServiceLease → Answer × ServiceLease
unfolding healthy fence acquire release
answer (asks_healthy probe) s = said (healthy probe s)
answer (asks_fence probe) s = fence probe s
answer (asks_acquire lock) s = acquire lock s
answer (asks_release unlocked) s = release unlocked s

-- The calls one after the other, with what each answers.
unfoldable pub answers : List Call → ServiceLease → List (Call × Answer)
unfolding answer
answers [] s = []
answers (call ∷ calls) s = let r = answer call s in (call, r.0) ∷ answers calls r.1
