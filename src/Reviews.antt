-- ===== src/Reviews.antt =====
-- Reviews of laptops on YouTube: app/reviews/funnel.py and the fetch guard of
-- app/reviews/transcript.py.
pub mod Funnel
pub mod Fetch
pub mod Workers
mod Examples
