-- ===== src/Des.antt =====
-- common/des.c: DES in the form of the key schedule and the combined S-boxes, and the padded
-- encryption of data under a fixed key.
pub mod Tables
pub mod Boxes
pub mod Standard
pub mod Cipher
pub mod Schedule
pub mod Block
pub mod Api
pub mod Swaps
pub mod Enter
pub mod Rounds
pub mod Keys
pub mod Bytes
pub mod Inverse
pub mod RoundTrip
mod Runs
