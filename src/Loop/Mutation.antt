-- ===== src/Loop/Mutation.antt =====
-- The mutation of a candidate, app/loop/mutation.py. Python's `random.Random` is a parameter, with its
-- state; a call of it gives its result and the next state. `int(round(x))` is a parameter too.
pub mod Attempts
pub mod Clusters
pub mod DefaultMap
pub mod Weights
pub mod Acceptance
pub mod DefaultFits
mod Tests
