-- ===== src/Models.antt =====
-- src/autobench/models.py: the data that the components exchange. A pydantic model is a record
-- with the model's fields; a field `T | None` is an `Option`. Seconds are counted in the ticks of
-- the clock that is read, so a `float` of seconds is a number here.
pub mod Workload
pub mod Run
pub mod Config
pub mod Report
pub mod Health
pub mod Wire
