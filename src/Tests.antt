-- ===== src/Tests.antt =====
-- Tests of the models on concrete inputs, and the theorems at inputs that meet their hypotheses.
mod Model
mod Rule
mod Scheduler
mod Engine
mod Rest
mod Color
mod Compile
mod Clock
mod Zwave
