-- ===== src/Commands/Lists.antt =====
-- list_commands.h: the list commands. `x_request` is the command that both overloads of the method
-- `x` ask for; the overload with a callback sends it in any case, but for `lpos`, and the overload
-- that waits, `x`, returns early where an argument is empty.
pub mod Ends
pub mod Items
pub mod Syntax
pub mod Replies
