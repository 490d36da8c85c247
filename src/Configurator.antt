-- ===== src/Configurator.antt =====
-- The configurator of a laptop: app/processor/apple_options.py and app/laptops/options_service.py.
pub mod Kits
pub mod Service
mod Priced
mod Choices
mod Chosen
mod Quoted
mod Examples
