-- ===== src/Display.antt =====
-- The class `Display` of app/static/novnc/core/display.js.
pub mod Drawn
pub mod Resize
pub mod Viewport
pub mod Damage
pub mod Queue
pub mod Settled
pub mod Order
pub mod Drain
pub mod Stuck
mod Tests
