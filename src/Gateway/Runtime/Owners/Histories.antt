-- ===== src/Gateway/Runtime/Owners/Histories.antt =====
-- The owners of the gates over whole histories, and the routes after a drain.
use senix.Gateway.Runtime.{empty_runtime}
use senix.Gateway.Runtime.Owners.{IsOwned}

pub empty-IsOwned : IsOwned empty_runtime
empty-IsOwned = record { owner = λ k. ""; instances = tt; routes = tt }
