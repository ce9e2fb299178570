-- ===== src/Android.antt =====
-- src/android: the Java VM as the code sees it, and how it is attached, referred to and published.
pub mod Act
pub mod Jni
pub mod Held
pub mod Loader
pub mod Context
pub mod Effects
pub mod Life
pub mod Assets
pub mod Resources
pub mod Platform
mod Tests
