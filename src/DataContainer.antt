-- ===== src/DataContainer.antt =====
-- data_container.hpp and data_container.cpp: `DataContainer`, the handler that keeps what a log says.
pub mod State
pub mod Resolution
pub mod Events
pub mod Samples
