-- ===== src/Dashboard/Docs/Web.antt =====
-- The snippet of the documentation for React, line by line.
use volq_auth.Base.{List, [], ◌∷◌, String, ◌<>◌}
use volq_auth.Dashboard.Docs.Injected.{Credentials}

unfoldable pub react : Credentials → List String
react c =
    "// ============================================================================"
    ∷ "// VOLQ-AUTH (OPENKEYAUTH) - REACT & NEXT.JS SDK INTEGRATION"
    ∷ "// ============================================================================"
    ∷ "// 1. Install SDK: npm install @volq-auth/react"
    ∷ "// 2. Wrap your application with <VolqAuthProvider>"
    ∷ "// 3. Use useVolqAuth() anywhere in your component tree"
    ∷ ""
    ∷ "import React, { useState } from 'react';"
    ∷ "import { VolqAuthProvider, useVolqAuth } from '@volq-auth/react';"
    ∷ ""
    ∷ "// Example: Protected License Gate Component"
    ∷ "export function LicenseGate() {"
    ∷ "  const {"
    ∷ "    isInitialized,"
    ∷ "    isAuthenticated,"
    ∷ "    isLoading,"
    ∷ "    error,"
    ∷ "    subscription,"
    ∷ "    hwid,"
    ∷ "    loginWithLicense,"
    ∷ "    getVariable,"
    ∷ "    logout,"
    ∷ "  } = useVolqAuth();"
    ∷ ""
    ∷ "  const [licenseKey, setLicenseKey] = useState('');"
    ∷ "  const [stripeSecret, setStripeSecret] = useState<string | null>(null);"
    ∷ ""
    ∷ "  const handleUnlock = async () => {"
    ∷ "    // Authenticates license and binds deterministic Browser HWID"
    ∷ "    const res = await loginWithLicense(licenseKey);"
    ∷ "    if (res.status === 'success') {"
    ∷ "      // Decrypt protected remote application variable directly in memory"
    ∷ "      const secret = await getVariable('STRIPE_SECRET_KEY');"
    ∷ "      setStripeSecret(secret);"
    ∷ "    }"
    ∷ "  };"
    ∷ ""
    ∷ "  if (!isInitialized) {"
    ∷ "    return <div className=\"text-text-muted\">Performing Ephemeral Handshake...</div>;"
    ∷ "  }"
    ∷ ""
    ∷ "  if (isAuthenticated) {"
    ∷ "    return ("
    ∷ "      <div className=\"p-6 bg-obsidian-card border border-emerald-500/30 rounded-xl space-y-3\">"
    ∷ "        <div className=\"flex items-center justify-between\">"
    ∷ "          <span className=\"text-status-success font-bold\">● Active License</span>"
    ∷ "          <span className=\"text-xs px-2.5 py-1 bg-status-success/15 text-status-success rounded-md font-mono\">"
    ∷ "            Tier: {subscription?.name} (Lvl {subscription?.tier_level})"
    ∷ "          </span>"
    ∷ "        </div>"
    ∷ "        <p className=\"text-xs text-text-muted font-mono\">Bound HWID: {hwid}</p>"
    ∷ "        {stripeSecret && ("
    ∷ "          <p className=\"text-xs text-brand font-mono\">Decrypted Variable: {stripeSecret}</p>"
    ∷ "        )}"
    ∷ "        <button"
    ∷ "          onClick={logout}"
    ∷ "          className=\"px-3 py-1.5 bg-obsidian-hover hover:bg-obsidian-border text-xs rounded-lg transition text-text-secondary\""
    ∷ "        >"
    ∷ "          Lock Session"
    ∷ "        </button>"
    ∷ "      </div>"
    ∷ "    );"
    ∷ "  }"
    ∷ ""
    ∷ "  return ("
    ∷ "    <div className=\"p-6 bg-obsidian-card border border-obsidian-border rounded-xl space-y-4 max-w-md\">"
    ∷ "      <h3 className=\"font-semibold text-text-primary\">License Activation Required</h3>"
    ∷ "      <p className=\"text-xs text-text-muted\">Browser HWID: {hwid?.slice(0, 16)}...</p>"
    ∷ ""
    ∷ "      {error && <p className=\"text-xs text-status-error\">{error}</p>}"
    ∷ ""
    ∷ "      <input"
    ∷ "        type=\"text\""
    ∷ "        placeholder=\"VOLQ-XXXX-XXXX-XXXX\""
    ∷ "        value={licenseKey}"
    ∷ "        onChange={(e) => setLicenseKey(e.target.value)}"
    ∷ "        className=\"w-full px-3.5 py-2 bg-obsidian-void border border-obsidian-border rounded-lg text-xs font-mono text-text-primary focus:border-brand outline-none\""
    ∷ "      />"
    ∷ ""
    ∷ "      <button"
    ∷ "        onClick={handleUnlock}"
    ∷ "        disabled={isLoading || !licenseKey.trim()}"
    ∷ "        className=\"w-full py-2 bg-brand hover:bg-brand/90 font-medium text-xs text-white rounded-lg transition disabled:opacity-50\""
    ∷ "      >"
    ∷ "        {isLoading ? 'Verifying with Gateway...' : 'Unlock Application'}"
    ∷ "      </button>"
    ∷ "    </div>"
    ∷ "  );"
    ∷ "}"
    ∷ ""
    ∷ "// Wrap in Root Layout or Entry App"
    ∷ "export default function App() {"
    ∷ "  return ("
    ∷ "    <VolqAuthProvider"
    ∷ ("      appId=\"" <> c.app_id <> "\"")
    ∷ ("      appVersion=\"" <> c.app_version <> "\"")
    ∷ ("      masterPublicKey=\"" <> c.master_pub_key <> "\"")
    ∷ "      baseUrl=\"https://api.yourdomain.com\""
    ∷ "      autoInit={true}"
    ∷ "    >"
    ∷ "      <LicenseGate />"
    ∷ "    </VolqAuthProvider>"
    ∷ "  );"
    ∷ "}"
    ∷ []
