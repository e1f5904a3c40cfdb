-- ===== src/Ui.antt =====
-- client/src/ui/App.h and App.cpp: what the window holds, what the client pushes into it, what the
-- keys do, and what the screens show.
pub mod App
pub mod Chat
pub mod Url
pub mod Login
pub mod Render
mod Examples
