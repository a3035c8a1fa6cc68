-- ===== src/Page.antt =====
-- app/views/templates/dashboard.py: the page of the dashboard. A text is a list of code points.
--
-- What the floating-point library prints is an argument: `show` of the average latency, and `cos_at`
-- and `sin_at` of the coordinates in the gauge. A saturation is a number of tenths of a percent.
mod Tests
pub mod Text
pub mod Template
pub mod Gauge
pub mod Rows
pub mod Render
pub mod Replace
pub mod Pieces
pub mod Filled
pub mod Plain
pub mod Markup
