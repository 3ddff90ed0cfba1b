-- ===== src/Processor.antt =====
-- The stream processor (processor/): causal reordering, aggregation, flushing.
pub mod Reorder
pub mod Aggregator
pub mod Service
pub mod Subscriber
