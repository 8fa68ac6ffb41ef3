-- ===== src/Git.antt =====
-- internal/git
pub mod Remote
pub mod Auth
pub mod Run
pub mod GoGit
pub mod Native
pub mod GitHubApp
pub mod Tests
