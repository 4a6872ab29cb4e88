-- ===== src/Tests.antt =====
-- Runs of the model at fixed inputs, and each property at an input that meets its hypotheses.
mod Samples
mod Engine
mod Containers
mod Machine
mod Wrap
mod Map
mod Runs
mod Pb
mod Transform
mod Check
mod Dump
mod Dada
mod EmitPs
mod Resstack
mod Parser
mod Lexer
