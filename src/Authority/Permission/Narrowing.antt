-- ===== src/Authority/Permission/Narrowing.antt =====
-- What narrowing two grants to both sides gives: the meet, in the order of the scopes.
pub mod Lists
pub mod Sound
pub mod Complete
