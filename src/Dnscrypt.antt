-- ===== src/Dnscrypt.antt =====
-- pkg/dnscrypt: parts that stand on their own.
pub mod Times
pub mod Padding
pub mod Framing
pub mod Keys
pub mod Certs
pub mod Resumption
pub mod Messages
pub mod Answers
pub mod Estimator
