-- ===== src/Commands/Sets.antt =====
-- set_commands.h: the set commands. `x_request` is the command that the method `x` asks for. Both
-- overloads return early where an argument is empty; the one with a callback never calls it then.
pub mod Members
pub mod Algebra
pub mod Syntax
pub mod Replies
