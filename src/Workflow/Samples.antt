-- ===== src/Workflow/Samples.antt =====
-- The workflow files .github/workflows/release.yml and .github/workflows/ci.yml as texts, and a reader of quoted
-- texts without escapes.
use rpmz.Base.{drop, Text, codes, Outcome, ok}
use rpmz.Workflow.Values.{Value, text}
use rpmz.Workflow.Lines.{YamlError}
use mathlib.Core.List.{reverse}

abbrev pub unquote : Text → Outcome YamlError Value
unquote t = ok (text (drop 1 (reverse (drop 1 (reverse t)))))

abbrev pub release : Text
release =
    codes
      "name: Release\n\non:\n  push:\n    tags:\n      - 'v*'\n\npermissions:\n  contents: read\n  attestations: read\n\njobs:\n  build:\n    name: Build ${{ matrix.platform }}\n    runs-on: ${{ matrix.os }}\n    strategy:\n      fail-fast: false\n      matrix:\n        include:\n          - os: ubuntu-24.04\n            platform: linux-x64\n          - os: ubuntu-24.04-arm\n            platform: linux-arm64\n    steps:\n      - uses: actions/checkout@11bd71901bbe5b1630ceea73d27597364c9af683 # v4.2.2\n      - name: Install Zig via ghr\n        uses: cataggar/ghr/actions/install@a3be8c61b9d5c2bd6d38e6d067c69d70434a6db9 # v0.9.1\n        env:\n          GH_TOKEN: ${{ github.token }}\n        with:\n          ghr-version: v0.9.1\n          tools: >-\n            cataggar/zig@v0.17.0\n            RWSGOq2NVecA2UPNdBUZykf1CCb147pkmdtYxgb3Ti+JO/wCYvhbAb/U\n      - uses: ./.github/actions/zig-cache\n      - name: Get version\n        id: version\n        run: |\n          python3 scripts/release.py version --tag \"$GITHUB_REF_NAME\" \\\n            >> \"$GITHUB_OUTPUT\"\n      - name: Build normal install layout\n        run: |\n          zig build -j2 -Doptimize=safe \\\n            \"-Dversion=${{ steps.version.outputs.version }}\" \\\n            install --prefix ./release-install\n      - name: Package binary archive, checksum, and SBOM\n        run: |\n          python3 scripts/release.py binary \\\n            --prefix ./release-install \\\n            --output ./release-assets \\\n            --version \"${{ steps.version.outputs.version }}\" \\\n            --platform \"${{ matrix.platform }}\"\n      - uses: actions/upload-artifact@ea165f8d65b6e75b540449e92b4886f43607fa02 # v4.6.2\n        with:\n          name: ${{ matrix.platform }}\n          path: release-assets/\n\n  source:\n    name: Source archive\n    runs-on: ubuntu-24.04\n    steps:\n      - uses: actions/checkout@11bd71901bbe5b1630ceea73d27597364c9af683 # v4.2.2\n      - name: Get version\n        id: version\n        run: |\n          python3 scripts/release.py version --tag \"$GITHUB_REF_NAME\" \\\n            >> \"$GITHUB_OUTPUT\"\n      - name: Package source archive and checksum\n        run: |\n          python3 scripts/release.py source \\\n            --output ./release-assets \\\n            --version \"${{ steps.version.outputs.version }}\"\n      - uses: actions/upload-artifact@ea165f8d65b6e75b540449e92b4886f43607fa02 # v4.6.2\n        with:\n          name: source\n          path: release-assets/\n\n  release:\n    name: Create release\n    needs: [build, source]\n    runs-on: ubuntu-24.04\n    permissions:\n      contents: write\n      id-token: write\n      attestations: write\n    steps:\n      - uses: actions/checkout@11bd71901bbe5b1630ceea73d27597364c9af683 # v4.2.2\n        with:\n          persist-credentials: false\n      - uses: actions/download-artifact@d3f86a106a0bac45b974a628896c90dbdf5c8093 # v4.3.0\n        with:\n          path: release-assets\n          merge-multiple: true\n      - name: Get version\n        id: version\n        run: |\n          python3 scripts/release.py version --tag \"$GITHUB_REF_NAME\" \\\n            >> \"$GITHUB_OUTPUT\"\n      - name: Attest build provenance\n        uses: actions/attest-build-provenance@c074443f1aee8d4aeeae555aebba3282517141b2 # v2.2.3\n        with:\n          subject-path: |\n            release-assets/rpmz-*.tar.gz\n            release-assets/rpmz-*.tar.xz\n      - name: Create release\n        uses: softprops/action-gh-release@da05d552573ad5aba039eaac05058a918a7bf631 # v2.2.2\n        with:\n          name: rpmz ${{ steps.version.outputs.version }}\n          body: |\n            **Install:**\n\n            ```sh\n            ghr install cataggar/rpmz@v${{ steps.version.outputs.version }}\n            ```\n\n            Binary archives expose one public executable: `bin/rpmz`. Use\n            `rpmz tdnf [options] COMMAND` for dnf/yum-compatible operations,\n            `rpmz repo-config` for repository configuration, and `rpmz auto`\n            for scheduled updates. The archives also contain `lib/`,\n            `libexec/`, and `etc/`, plus COPYING and README.md. SHA-256\n            sidecars, SPDX SBOMs, and GitHub provenance attestations are\n            published with the archives.\n          files: |\n            release-assets/rpmz-*.tar.gz\n            release-assets/rpmz-*.tar.xz\n            release-assets/rpmz-*.sha256\n            release-assets/rpmz-*.sbom.spdx.json\n          prerelease: ${{ steps.version.outputs.prerelease }}\n\n  post-release-smoke:\n    name: ghr install smoke (${{ matrix.platform }})\n    needs: release\n    runs-on: ${{ matrix.os }}\n    strategy:\n      fail-fast: false\n      matrix:\n        include:\n          - os: ubuntu-24.04\n            platform: linux-x64\n          - os: ubuntu-24.04-arm\n            platform: linux-arm64\n    steps:\n      - uses: actions/checkout@11bd71901bbe5b1630ceea73d27597364c9af683 # v4.2.2\n      - name: Install pinned ghr\n        run: pipx install ghr-bin==0.9.1\n      - name: Get version\n        id: version\n        run: |\n          python3 scripts/release.py version --tag \"$GITHUB_REF_NAME\" \\\n            >> \"$GITHUB_OUTPUT\"\n      - name: Install and audit published release\n        env:\n          GH_TOKEN: ${{ secrets.GITHUB_TOKEN }}\n        run: |\n          python3 scripts/release-smoke.py \\\n            --repo cataggar/rpmz \\\n            --tag \"$GITHUB_REF_NAME\" \\\n            --version \"${{ steps.version.outputs.version }}\" \\\n            --platform \"${{ matrix.platform }}\" \\\n            --prefix \"$RUNNER_TEMP/rpmz-ghr-smoke\"\n"

abbrev pub ci : Text
ci =
    codes
      "name: CI\n\non:\n  push:\n    branches: [main]\n  pull_request:\n    branches: [main]\n  workflow_dispatch:\n\npermissions:\n  contents: read\n  attestations: read\n\njobs:\n  build-and-test:\n    name: Build & Test (${{ matrix.name }})\n    runs-on: ${{ matrix.os }}\n    strategy:\n      fail-fast: false\n      matrix:\n        include:\n          - os: ubuntu-24.04\n            name: linux-x64\n          - os: ubuntu-24.04-arm\n            name: linux-arm64\n\n    steps:\n      - uses: actions/checkout@11bd71901bbe5b1630ceea73d27597364c9af683 # v4.2.2\n\n      - name: Install C build dependencies\n        run: |\n          sudo apt-get update\n          sudo apt-get install -y --no-install-recommends \\\n            binutils \\\n            createrepo-c \\\n            gcc \\\n            gnupg \\\n            rpm \\\n            python3-openssl \\\n            python3-pytest \\\n            python3-requests\n\n      - name: Install Zig via ghr\n        uses: cataggar/ghr/actions/install@a3be8c61b9d5c2bd6d38e6d067c69d70434a6db9 # v0.9.1\n        env:\n          GH_TOKEN: ${{ github.token }}\n        with:\n          ghr-version: v0.9.1\n          tools: >-\n            cataggar/zig@v0.17.0\n            RWSGOq2NVecA2UPNdBUZykf1CCb147pkmdtYxgb3Ti+JO/wCYvhbAb/U\n\n      - name: Configure Zig caches\n        uses: ./.github/actions/zig-cache\n\n      - name: Build (Debug)\n        run: zig build -j2 install --prefix ./out\n\n      - name: Prove product build does not fetch libsolv\n        if: matrix.name == 'linux-x64'\n        run: zig build -j2 product-no-libsolv-fetch-audit\n\n      - name: Smoke test (Debug)\n        run: |\n          ./out/bin/rpmz --version\n          sudo ./scripts/smoke-rpmzig.sh ./out\n\n      - name: Zig unit tests\n        run: |\n          zig build -j2 test --prefix ./out\n          zig build -j2 -Dlibsolv-oracle=true libsolv-oracle-test --prefix ./out\n          # Also run them optimized. Debug masks whole classes of bug:\n          # dangling stack pointers stay readable and the safety\n          # allocator hides use-after-free. A segfault in\n          # transaction_plan_native passed Debug CI for exactly this\n          # reason. The ReleaseSafe build below starts with `rm -rf out`,\n          # so this step cannot disturb the measured artifact.\n          zig build -j2 -Doptimize=safe test --prefix ./out\n\n      - name: Build (ReleaseSafe)\n        run: |\n          rm -rf out\n          zig build -j2 -Doptimize=safe install --prefix ./out\n\n      - name: Smoke test (ReleaseSafe)\n        run: |\n          ./out/bin/rpmz --version\n          sudo ./scripts/smoke-rpmzig.sh ./out\n\n      - name: Migration audits\n        run: |\n          zig build -j2 migration-audit --prefix ./out\n          zig build -j2 rebrand-audit --prefix ./out\n          zig build -j2 dead-errdefer-audit --prefix ./out\n\n      - name: Native dependency and public Zig API audits\n        run: |\n          zig build -j2 -Doptimize=safe native-dependency-audit --prefix ./out\n          zig build -j2 -Doptimize=safe public-zig-api-audit --prefix ./out\n          zig build -j2 -Doptimize=safe libsolv-confinement-audit --prefix ./out\n\n      - name: Generate ztest repository seed\n        run: |\n          sudo ln -sf /usr/bin/createrepo_c /usr/local/bin/createrepo\n          sudo ln -sf /usr/bin/modifyrepo_c /usr/local/bin/modifyrepo\n          bash pytests/repo/setup-repo.sh \"$(pwd)/out/repo\" \"$(pwd)/pytests/repo\"\n\n      - name: Offline replay acceptance tests\n        run: |\n          zig build -j2 -Doptimize=safe replay-acceptance-export --prefix ./out\n          cd pytests\n          sudo -E env \"PATH=$PATH\" python3 -m pytest -v tests/test_replay_acceptance.py\n\n      - name: Zig integration tests\n        run: sudo -E env \"PATH=$PATH\" zig build -j2 -Doptimize=safe ztest --prefix ./out --summary all\n\n  no-rpm-development:\n    name: Build without RPM development files\n    runs-on: ubuntu-24.04\n    steps:\n      - uses: actions/checkout@11bd71901bbe5b1630ceea73d27597364c9af683 # v4.2.2\n\n      - name: Install minimal build dependencies\n        run: |\n          sudo apt-get update\n          sudo apt-get install -y --no-install-recommends \\\n            binutils \\\n            flake8 \\\n            gcc\n          legacy_dev=\"lib$(printf 'r%sm' 'p')-dev\"\n          if dpkg-query -W -f='${Status}' \"${legacy_dev}\" 2>/dev/null |\n              grep -Fq 'install ok installed'; then\n            echo \"::error::legacy development files must not be installed\"\n            exit 1\n          fi\n\n      - name: Install host RPM test oracle\n        run: sudo apt-get install -y --no-install-recommends rpm\n\n      - name: Install Zig via ghr\n        uses: cataggar/ghr/actions/install@a3be8c61b9d5c2bd6d38e6d067c69d70434a6db9 # v0.9.1\n        env:\n          GH_TOKEN: ${{ github.token }}\n        with:\n          ghr-version: v0.9.1\n          tools: >-\n            cataggar/zig@v0.17.0\n            RWSGOq2NVecA2UPNdBUZykf1CCb147pkmdtYxgb3Ti+JO/wCYvhbAb/U\n\n      - name: Configure Zig caches\n        uses: ./.github/actions/zig-cache\n\n      - name: Build, test, and lint\n        run: |\n          zig build -j2 -Doptimize=safe install --prefix ./out\n          zig build -j2 test --prefix ./out\n          zig build -j2 -Doptimize=safe test --prefix ./out\n          zig build -j2 lint --prefix ./out\n          zig build -j2 -Doptimize=safe install --prefix ./out\n\n      - name: Audit migration, dependencies, and public Zig API\n        run: |\n          zig build -j2 migration-audit --prefix ./out\n          zig build -j2 rebrand-audit --prefix ./out\n          zig build -j2 dead-errdefer-audit --prefix ./out\n          zig build -j2 -Doptimize=safe native-dependency-audit --prefix ./out\n          zig build -j2 -Doptimize=safe public-zig-api-audit --prefix ./out\n          zig build -j2 -Doptimize=safe libsolv-confinement-audit --prefix ./out\n\n  lint:\n    name: Source policy\n    runs-on: ubuntu-24.04\n    steps:\n      - uses: actions/checkout@11bd71901bbe5b1630ceea73d27597364c9af683 # v4.2.2\n      - name: C-to-Zig migration audit\n        run: python3 scripts/c-to-zig-audit.py\n      - name: Native dependency source audit\n        run: python3 scripts/librpm-audit.py\n      - name: Release workflow audit\n        run: python3 scripts/release-audit.py\n      - uses: actions/setup-python@a26af69be951a213d495a4c3e4e4022e16d87065 # v5.6.0\n        with:\n          python-version: \"3.12\"\n      - run: pip install flake8\n      - run: flake8 pytests\n\n  # Summary job matching a stable required-status-check name for branch\n  # protection.\n  ci-summary:\n    name: CI\n    runs-on: ubuntu-24.04\n    needs: [build-and-test, no-rpm-development, lint, release-dry-run]\n    if: always()\n    steps:\n      - name: Check results\n        run: |\n          if [ \"${{ needs['build-and-test'].result }}\" != \"success\" ] || \\\n             [ \"${{ needs['no-rpm-development'].result }}\" != \"success\" ] || \\\n             [ \"${{ needs.lint.result }}\" != \"success\" ] || \\\n             [ \"${{ needs['release-dry-run'].result }}\" != \"success\" ]; then\n            echo \"::error::One or more CI jobs failed\"\n            exit 1\n          fi\n          echo \"All CI jobs passed\"\n\n  release-dry-run:\n    name: Release dry-run\n    runs-on: ubuntu-24.04\n    steps:\n      - uses: actions/checkout@11bd71901bbe5b1630ceea73d27597364c9af683 # v4.2.2\n      - name: Install Zig via ghr\n        uses: cataggar/ghr/actions/install@a3be8c61b9d5c2bd6d38e6d067c69d70434a6db9 # v0.9.1\n        env:\n          GH_TOKEN: ${{ github.token }}\n        with:\n          ghr-version: v0.9.1\n          tools: >-\n            cataggar/zig@v0.17.0\n            RWSGOq2NVecA2UPNdBUZykf1CCb147pkmdtYxgb3Ti+JO/wCYvhbAb/U\n      - uses: ./.github/actions/zig-cache\n      - name: Package and verify v0.1.0 locally\n        run: |\n          zig build -j2 -Doptimize=safe -Dversion=0.1.0 \\\n            release-dry-run --prefix ./release-install\n"
