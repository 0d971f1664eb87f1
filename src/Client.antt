-- ===== src/Client.antt =====
-- xhttp/client.go, the parts that do not only call the HTTP client: the body that is waited for.
pub mod Waiter
pub mod Resolve
pub mod Uploader
mod Tests
