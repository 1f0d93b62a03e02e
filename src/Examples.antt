-- ===== src/Examples.antt =====
-- Concrete runs of the model: data, and the theorems of the other modules at it.
mod Data
mod Pause
mod Finished
mod StoreRuns
mod Durable
mod SqliteRuns
mod DeliveryRuns
mod ReviewRuns
mod KernelRuns
mod PlanRuns
mod PolicyRuns
