-- ===== src/Mailbox.antt =====
-- mailbox_store.rs and mailbox.rs: the messages that wait for their owners, and the tokens that
-- let a sender leave them.
pub mod Store
pub mod Urls
pub mod Tokens
