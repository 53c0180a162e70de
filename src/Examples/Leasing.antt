-- ===== src/Examples/Leasing.antt =====
-- A concrete lease: the database says that its lock is not held.
use blast_radius.Base.{refl, true, false, some, List, [], ◌∷◌, All}
use blast_radius.Server.Lease.{
  ServiceLease, owner, of_database, Call, asks_healthy, asks_fence, asks_acquire, answer, answers,
}
use blast_radius.Server.Lease.Lost.{Refused, IsLoss, lost_forever}

abbrev held : ServiceLease
held = record { connected = true; file_open = false; pid = some 12; lost = false }

abbrev retried : List Call
retried = asks_healthy (owner true) ∷ asks_acquire (of_database 13) ∷ asks_fence (owner true) ∷ []

held-refused : IsLoss (asks_healthy (owner false), (answer (asks_healthy (owner false)) held).0)
unfolding answer
held-refused = refl

lost_forever_example : All Refused (answers retried (answer (asks_healthy (owner false)) held).1)
lost_forever_example = lost_forever (asks_healthy (owner false)) retried held held-refused
