-- ===== src/Tests.antt =====
-- The development on sample data: each module tries the code of one part.
mod Data
mod Access
mod RefreshTokens
mod Codes
mod Tenants
mod Users
mod Endpoint
mod Logins
mod Accounts
mod Apps
mod Signup
mod Authorize
mod Service
mod SignIns
