-- ===== src/Lib.antt =====
-- Sassy Auth's authorization server: who gets tokens, and who may administer what.
--
-- The program is a multi-tenant identity provider (apps/auth-server, TypeScript on NestJS and
-- Prisma). An app belongs to the platform's operator; organisations belong to an app, users to an
-- organisation. Users hold permissions by roles and directly. Administration services check the
-- caller's permissions against the tenant that a request is about; the token endpoint exchanges
-- authorization codes, refresh tokens and client credentials for signed tokens that list what
-- their user may do.
--
-- Files, and the code that each models (paths below apps/auth-server/src unless they begin with
-- packages):
--   Common        shared helpers: Boolean tests, lists, texts, and handlers with exceptions
--   Db            the tables of packages/db/schema.prisma
--   Queries       the queries and writes that services share, and the pages of lists
--   Access        common/permissions: checkPermission, checkPermissionForApp, resolveListScope,
--                 assertCallerCanGrantSystemPerms, resolvePermissionIdsForApp
--   TokenClaims   token/token.service.ts: resolvePermissions, resolveRoles
--   TokenService  token/token.service.ts: issueJwt, issueIdToken, issueServiceJwt; token/scopes.ts
--                 and token/service-scopes.ts
--   TokenEndpoint token/token.controller.ts: oauthToken, refreshTokenGrant,
--                 handleClientCredentials, directLogin, oauthAuthorize, handleOauthLogout
--   OauthCode     token/oauth.service.ts, token/oauth-code-cleanup.service.ts
--   RefreshToken  token/refresh-token.service.ts
--   RedirectUri   token/redirect-uri.ts
--   Json          token/amr.ts, and what a JSON text is to the services
--   Platform      what the code calls but does not contain: cryptography, JSON, URL parsing
--   ServiceGuard  service-users/service-token.guard.ts
--   PasswordPolicy  auth/password-policy.ts, and packages/types/index.ts
--   Invitations   invitations/invitations.service.ts: acceptInvitation
--   Registration  registration/registration.service.ts: signup by a link and by a code
--   Apps          apps/apps.service.ts: apps, their settings and their secrets
--   World         the tables, codes and refresh tokens together
--   Roles, Permissions, Orgs    roles, permissions and orgs: the services of administration
--   Users         users/users.service.ts and service-users
--   Consent       consent: which documents a user still has to accept
--   SignIn        auth and social: the decisions around a sign-in
--   RateLimit     auth/auth-rate-limit.ts, registration/rate-limit.guard.ts
--   Tests         a sample deployment, and the theorems tried on it
--
-- A service method is a function to `Action S A`: it takes the tables, and answers a value or the
-- exception that it throws together with the tables that it leaves. What was written before a
-- `throw` stays written; a database transaction is all or nothing. A table is the list of its
-- rows, and a Prisma call is the query that its arguments state, with the errors that the
-- constraints of the schema can raise (P2002, P2003, P2025). Random values and the clock are
-- arguments, milliseconds are natural numbers. Loops of the source run over lists, so every
-- definition is structural and no fuel is used. The integers of the source are row ids, counts
-- and instants far below 2^53, so the native ℕ has their behaviour; differences of instants are
-- written as sums.
--
-- Libraries are parameters: the record Platform holds password verification, hashes, signatures,
-- Sqids, URL parsing and JSON, with the laws that a proof needs; Externals holds the pattern
-- match and the order of names of the database; Services holds the calls of BetterAuth that a
-- signup makes, and what is assumed of them is a hypothesis of the theorem; LogoutCalls holds the
-- calls of a logout. Where BetterAuth's verification of a password throws on a malformed hash, the
-- model takes the password as wrong. Not modelled: mails, logs, metrics, HTTP headers (but for the
-- cookies of a logout), BetterAuth's own handlers, the admin user interface, and the parts of the
-- server for social sign-in, userinfo and the own account.
pub mod Common
pub mod Db
pub mod PasswordPolicy
mod Tests
pub mod RedirectUri
pub mod Registration
pub mod SignIn
pub mod TokenClaims
pub mod Consent
pub mod Access
pub mod Apps
pub mod Json
pub mod Platform
pub mod TokenService
pub mod World
pub mod TokenEndpoint
pub mod ServiceGuard
pub mod RefreshToken
pub mod OauthCode
pub mod Queries
pub mod Roles
pub mod Permissions
pub mod Orgs
pub mod Users
pub mod Invitations
pub mod RateLimit
