-- ===== src/Notify.antt =====
-- internal/notify: the approval of a proposal. The texts of the messages and the Telegram client are
-- not modelled.
pub mod Approval
mod Tests
