-- ===== src/Store.antt =====
-- pkg/domain/persistence/fake/fake.go: the in-memory implementation of the four persistence ports, and
-- the stores that the theorems about it are over.
-- A Go map is a list of its values, whose keys are the job's id and the queue's name; its order is that
-- of the iteration, which Go leaves open, and a theorem holds for every list. The mutex makes each
-- method one step of the store, from one state to the next. Defs.antt has the state, Repo.antt,
-- Broker.antt, Queues.antt and Claims.antt the methods of the four ports.
pub mod Defs
pub mod Repo
pub mod Broker
pub mod Queues
pub mod Claims
pub mod Maps
pub mod Choice
pub mod Dequeue
pub mod Workers
pub mod Fairness
pub mod Sweeps
pub mod Depth
pub mod Records
pub mod Validity
pub mod History
pub mod Serving
pub mod Ranks
