-- ===== src/Reservations.antt =====
-- ReservationService of app/services/reservations.py: opening hours, the slots and their capacity,
-- the plan of an appointment, reminders and activation.
pub mod Hours
pub mod Slots
pub mod Plan
pub mod Due
pub mod Capacity
pub mod Alignment
pub mod Window
pub mod Sweeps
