-- ===== src/Tests/Unit.antt =====
-- The unit tests of the repository, run on the model.
mod Auth
mod Greeting
mod HappyEyeballs
mod Request
mod Response
